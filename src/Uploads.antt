-- ===== src/Uploads.antt =====
-- expenses/uploads.py: what a receipt is, by its leading bytes.
pub mod Formats
use ats_onework.Prelude.{
  ℕ, zero, suc, String, Bool, true, false, Option, none, some, List, [], ◌∷◌, ◌&&◌, ◌==◌, leb,
  length, take, if◌then◌else◌,
}
use ats_onework.Prelude.Text.{text_eq}
use ats_onework.Exec.{Exec, Error, pure, or_raise}
use ats_onework.Schema.{Db}

abbrev pub Bytes : Type 0
Bytes = List ℕ

pub record SniffedFile : Type 0 where
  pub content_type : String
  pub extension : String

-- An entry of `_SIGNATURES`.
pub record Signature : Type 0 where
  pub bytes : Bytes
  pub file : SniffedFile

abbrev pub png_file : SniffedFile
png_file = record { content_type = "image/png"; extension = ".png" }

abbrev pub pdf_file : SniffedFile
pdf_file = record { content_type = "application/pdf"; extension = ".pdf" }

abbrev pub jpeg_file : SniffedFile
jpeg_file = record { content_type = "image/jpeg"; extension = ".jpg" }

abbrev pub webp_file : SniffedFile
webp_file = record { content_type = "image/webp"; extension = ".webp" }

abbrev pub signatures : List Signature
signatures =
    record { bytes = 137 ∷ b'P' ∷ b'N' ∷ b'G' ∷ 13 ∷ 10 ∷ 26 ∷ 10 ∷ []; file = png_file }
    ∷ record { bytes = b'%' ∷ b'P' ∷ b'D' ∷ b'F' ∷ b'-' ∷ []; file = pdf_file }
    ∷ record { bytes = 255 ∷ 216 ∷ 255 ∷ []; file = jpeg_file }
    ∷ []

abbrev pub webp_riff : Bytes
webp_riff = b'R' ∷ b'I' ∷ b'F' ∷ b'F' ∷ []

abbrev pub webp_tag : Bytes
webp_tag = b'W' ∷ b'E' ∷ b'B' ∷ b'P' ∷ []

-- `CONTENT_TYPE_EXTENSIONS`
abbrev pub content_type_extensions : List (String × String)
content_type_extensions =
    ("image/jpeg", ".jpg")
    ∷ ("image/png", ".png")
    ∷ ("image/webp", ".webp")
    ∷ ("application/pdf", ".pdf")
    ∷ []

-- `content.startswith(signature)`
unfoldable pub starts_with : Bytes → Bytes → Bool
starts_with [] content = true
starts_with (b ∷ bs) [] = false
starts_with (b ∷ bs) (c ∷ content) = let rest = starts_with bs content in b == c && rest

-- `==` of two `bytes`
unfoldable pub same_bytes : Bytes → Bytes → Bool
same_bytes [] [] = true
same_bytes (b ∷ bs) (c ∷ cs) = let rest = same_bytes bs cs in b == c && rest
same_bytes _ _ = false

-- `content[n:]`
abbrev pub drop : ℕ → Bytes → Bytes
drop zero content = content
drop (suc n) [] = []
drop (suc n) (c ∷ content) = drop n content

-- The loop over the signatures, and what follows it.
unfoldable pub sniff_signatures : List Signature → Bytes → Option SniffedFile → Option SniffedFile
sniff_signatures [] content otherwise = otherwise
sniff_signatures (s ∷ rest) content otherwise =
    let later = sniff_signatures rest content otherwise in
    if starts_with s.bytes content then some s.file else later

unfoldable pub is_webp : Bytes → Bool
is_webp content =
    leb 12 (length content)
    && same_bytes (take 4 content) webp_riff
    && same_bytes (take 4 (drop 8 content)) webp_tag

unfoldable pub sniff_content_type : Bytes → Option SniffedFile
sniff_content_type content =
    sniff_signatures signatures content (if is_webp content then some webp_file else none)

unfoldable pub verify_upload : Bytes → Exec Db SniffedFile
verify_upload content = or_raise (sniff_content_type content) Error.validation
