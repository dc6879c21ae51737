-- ===== src/Uploads/Formats.antt =====
-- The formats of a receipt, described by their bytes, and that the sniffing decides them.
use mathlib.Core.Logic.{◌↔◌}
use ats_onework.Prelude.{
  ℕ, suc, true, Option, none, some, [], ◌∷◌, ◌++◌, ◌≡◌, refl, sym, ap, subst, ◌∙◌, length, take,
  find, Bool-cases, inl, inr, arith,
}
use ats_onework.Prelude.Text.{text_eq}
use ats_onework.Exec.{ok, Error, or_raise}
use ats_onework.Schema.{Db}
use ats_onework.Uploads.{
  Bytes, SniffedFile, png_file, pdf_file, jpeg_file, webp_file, webp_riff, webp_tag, starts_with,
  same_bytes, drop, sniff_signatures, is_webp, sniff_content_type, verify_upload,
  content_type_extensions,
}

pub data Format : Type 0 where
  png pdf jpeg webp : Format

pub file_of : Format → SniffedFile
file_of png = png_file
file_of pdf = pdf_file
file_of jpeg = jpeg_file
file_of webp = webp_file

-- The bytes of a file of each format: a signature, or RIFF, four bytes of size and WEBP.
pub data IsFormat : Format → Bytes → Type 0 where
  png_bytes : (rest : Bytes) → IsFormat png (137 ∷ b'P' ∷ b'N' ∷ b'G' ∷ 13 ∷ 10 ∷ 26 ∷ 10 ∷ rest)
  pdf_bytes : (rest : Bytes) → IsFormat pdf (b'%' ∷ b'P' ∷ b'D' ∷ b'F' ∷ b'-' ∷ rest)
  jpeg_bytes : (rest : Bytes) → IsFormat jpeg (255 ∷ 216 ∷ 255 ∷ rest)
  webp_bytes :
      (a b c d : ℕ) (rest : Bytes)
      → IsFormat webp (b'R' ∷ b'I' ∷ b'F' ∷ b'F' ∷ a ∷ b ∷ c ∷ d ∷ b'W' ∷ b'E' ∷ b'B' ∷ b'P' ∷ rest)

webp_detected :
    (a b c d : ℕ) (rest : Bytes)
    → is_webp (b'R' ∷ b'I' ∷ b'F' ∷ b'F' ∷ a ∷ b ∷ c ∷ d ∷ b'W' ∷ b'E' ∷ b'B' ∷ b'P' ∷ rest) ≡ true
unfolding is_webp same_bytes
webp_detected a b c d rest = ground arith

-- A file of a format is sniffed as that.
pub sniff_complete :
    (f : Format) (content : Bytes)
    → IsFormat f content
    → sniff_content_type content ≡ some (file_of f)
unfolding sniff_content_type sniff_signatures starts_with file_of
sniff_complete png _ (png_bytes rest) = refl
sniff_complete pdf _ (pdf_bytes rest) = refl
sniff_complete jpeg _ (jpeg_bytes rest) = refl
sniff_complete webp _ (webp_bytes a b c d rest) = rw (webp_detected a b c d rest) refl

-- What starts with a text of bytes is that text with a rest.
starts :
    (bs content : Bytes) → starts_with bs content ≡ true → (rest : Bytes) × (content ≡ bs ++ rest)
unfolding starts_with
starts [] content h = (content, refl)
starts (b ∷ bs) [] h = absurd (cc)
starts (b ∷ bs) (c ∷ content) h =
    let (rest, e) = starts bs content (ground arith) in
    let same : b ≡ c = ground arith in (rest, rw (e, same) refl)

same_bytes_sound : (bs cs : Bytes) → same_bytes bs cs ≡ true → bs ≡ cs
unfolding same_bytes
same_bytes_sound [] [] h = refl
same_bytes_sound [] (c ∷ cs) h = absurd (cc)
same_bytes_sound (b ∷ bs) [] h = absurd (cc)
same_bytes_sound (b ∷ bs) (c ∷ cs) h =
    let rest = same_bytes_sound bs cs (ground arith) in
    let same : b ≡ c = ground arith in rw (rest, same) refl

prefix_of : (ys xs : Bytes) → take (length ys) xs ≡ ys → (rest : Bytes) × (xs ≡ ys ++ rest)
prefix_of [] xs h = (xs, refl)
prefix_of (y ∷ ys) [] h = absurd (cc)
prefix_of (y ∷ ys) (x ∷ xs) h =
    let (rest, e) = prefix_of ys xs (cc) in let same : x ≡ y = cc in (rest, cc)

undrop :
    (n w : ℕ) (t xs : Bytes)
    → drop (suc n) xs ≡ w ∷ t
    → (x : ℕ) × (xs' : Bytes) × (xs ≡ x ∷ xs') × (drop n xs' ≡ w ∷ t)
undrop n w t [] h = absurd (cc)
undrop n w t (x ∷ xs) h = (x, xs, refl, h)

webp_of :
    (a b c d : ℕ) (rest content x4 x5 x6 x7 x8 : Bytes)
    → content ≡ webp_riff ++ x4
    → x4 ≡ a ∷ x5
    → x5 ≡ b ∷ x6
    → x6 ≡ c ∷ x7
    → x7 ≡ d ∷ x8
    → x8 ≡ webp_tag ++ rest
    → IsFormat webp content
webp_of a b c d rest content x4 x5 x6 x7 x8 e4 e5 e6 e7 e8 e =
    rw (e4, e5, e6, e7, e8, e) (webp_bytes a b c d rest)

webp_sound : (content : Bytes) → is_webp content ≡ true → IsFormat webp content
unfolding is_webp
webp_sound content h =
    let riff = same_bytes_sound (take 4 content) webp_riff (ground (arith, h)) in
    let tag = same_bytes_sound (take 4 (drop 8 content)) webp_tag (ground (arith, h)) in
    let (x4, e4) = prefix_of webp_riff content riff in
    let (rest, e8) = prefix_of webp_tag (drop 8 content) tag in
    let after : drop 4 x4 ≡ webp_tag ++ rest = ap (drop 8) (sym e4) ∙ e8 in
    let (a, x5, e5, h5) = undrop 3 _ _ x4 after in
    let (b, x6, e6, h6) = undrop 2 _ _ x5 h5 in
    let (c, x7, e7, h7) = undrop 1 _ _ x6 h6 in
    let (d, x8, e8', h8) = undrop 0 _ _ x7 h7 in
    webp_of a b c d rest content x4 x5 x6 x7 x8 e4 e5 e6 e7 e8' h8

-- What is sniffed has a format, which says how it is stored.
pub sniff_sound :
    (content : Bytes) (file : SniffedFile)
    → sniff_content_type content ≡ some file
    → (f : Format) × IsFormat f content × (file ≡ file_of f)
unfolding sniff_content_type sniff_signatures file_of
sniff_sound content file h =
    let png_sig : Bytes = 137 ∷ b'P' ∷ b'N' ∷ b'G' ∷ 13 ∷ 10 ∷ 26 ∷ 10 ∷ [] in
    let pdf_sig : Bytes = b'%' ∷ b'P' ∷ b'D' ∷ b'F' ∷ b'-' ∷ [] in
    let jpeg_sig : Bytes = 255 ∷ 216 ∷ 255 ∷ [] in
    elim (Bool-cases (starts_with png_sig content)) [
      | inl e ↦
          let (rest, same) = starts png_sig content e in
          (png, subst (IsFormat png) (sym same) (png_bytes rest), ground (arith, e, h))
      | inr e1 ↦ elim (Bool-cases (starts_with pdf_sig content)) [
        | inl e ↦
            let (rest, same) = starts pdf_sig content e in
            (pdf, subst (IsFormat pdf) (sym same) (pdf_bytes rest), ground (arith, e1, e, h))
        | inr e2 ↦ elim (Bool-cases (starts_with jpeg_sig content)) [
          | inl e ↦
              let (rest, same) = starts jpeg_sig content e in
              (
                jpeg,
                subst (IsFormat jpeg) (sym same) (jpeg_bytes rest),
                ground (arith, e1, e2, e, h),
              )
          | inr e3 ↦ elim (Bool-cases (is_webp content)) [
            | inl e ↦ (webp, webp_sound content e, ground (arith, e1, e2, e3, e, h))
            | inr e ↦ absurd (ground (arith, e1, e2, e3, e, h))
          ]
        ]
      ]
    ]

accepted :
    (o : Option SniffedFile) (file : SniffedFile) (d : Db)
    → or_raise o Error.validation d ≡ (ok file, d)
    → o ≡ some file
accepted none file d h = absurd (cc)
accepted (some f) file d h = cc

extension_known :
    (f : Format)
    → find (λ p. text_eq p.0 (file_of f).content_type) content_type_extensions
      ≡ some ((file_of f).content_type, (file_of f).extension)
unfolding file_of text_eq
extension_known png = refl
extension_known pdf = refl
extension_known jpeg = refl
extension_known webp = refl

-- An upload is accepted as a file exactly if it has one of the four formats and the file is that
-- format's, and the file's extension is the one that CONTENT_TYPE_EXTENSIONS gives for its type.
pub verify_upload_decides :
    (content : Bytes) (file : SniffedFile) (d : Db)
    → (verify_upload content d ≡ (ok file, d)) ↔ (
        (f : Format) × IsFormat f content
        × (file ≡ file_of f)
        × (find (λ p. text_eq p.0 file.content_type) content_type_extensions
            ≡ some (file.content_type, file.extension)))
unfolding verify_upload
verify_upload_decides content file d = (
  λ h.
      let (f, format, same) =
        sniff_sound content file (accepted (sniff_content_type content) file d h) in
      (f, format, same, rw same (extension_known f)),
  λ (f, format, same, known). rw (sniff_complete f content format, same) refl,
)
