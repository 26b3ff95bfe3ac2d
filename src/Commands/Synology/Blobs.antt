-- ===== src/Commands/Synology/Blobs.antt =====
-- The files that cmd/azath/seal.go writes, as readBlob of cmd/azath/client.go reads them.
use azath.Prelude.{
  Result-cases, ok, Option-cases, length, length-append, All, Text, Bytes, IsBytes, ◌+◌, ◌≤◌, ◌≡◌,
  sym, ◌∙◌, ◌↔◌, ◌⊎◌, inl, inr, some, [], ◌∷◌, ◌++◌, arith,
}
use azath.Base64.Standard.{
  std_encode, std_decode, IsGraphic, std_encode-IsGraphic, std_decode-std_encode, length-std_encode,
}
use azath.Client.{contents, read_bounded_file}
use azath.Client.Targets.{read_bounded_file_iff}
use azath.Commands.Synology.{World, read_blob, blob_of}

-- bytes.TrimSpace leaves a text without white space as it is, and takes a line end off its end.
pub record TrimsSpace (w : World) : Type 0 where
  pub keeps : (s : Text) → All IsGraphic s → w.trim_space s ≡ s
  pub cuts : (s : Text) → All IsGraphic s → w.trim_space (s ++ (10 ∷ [])) ≡ s

-- The base64 of a blob, with the line end of stdout or without it.
abbrev pub IsBlobFile : World → Text → Bytes → Type 0
IsBlobFile w path blob =
    (w.file path ≡ contents (std_encode blob))
    ⊎ (w.file path ≡ contents (std_encode blob ++ (10 ∷ [])))

blob_of_limits :
    (blob : Bytes) → (blob_of (some blob) ≡ ok blob) ↔ ((32 ≤ length blob) × (length blob ≤ 4128))
unfolding blob_of
blob_of_limits blob = (λ h. ground arith, λ h. ground arith)

contents_eq : (a b : Bytes) → contents a ≡ contents b → a ≡ b
contents_eq a b h = cc h

module _ (w : World) (path : Text) (blob : Bytes) (bytes : IsBytes blob) where
  -- A text whose trimmed contents are the base64 of the blob.
  read_text :
      (text : Bytes)
      → w.file path ≡ contents text
      → w.trim_space text ≡ std_encode blob
      → length text ≤ length (std_encode blob) + 1
      → (read_blob w path ≡ ok blob) ↔ ((32 ≤ length blob) × (length blob ≤ 4128))
  unfolding read_blob
  read_text text f t l =
      let (forth, back) = blob_of_limits blob in
      let decodes = std_decode-std_encode blob bytes in
      (
        λ h. elim (Result-cases (read_bounded_file 16384 (w.file path))) [
          | inl (e, b) ↦ absurd (cc (rw b at h))
          | inr (read, r) ↦
              let same =
                contents_eq text read (sym f ∙ ((read_bounded_file_iff 16384 _ read).0 r).0) in
              forth (rw (r, ← same, t, decodes) at h)
        ],
        λ h.
            let r =
              (read_bounded_file_iff 16384 (w.file path) text).1
                (f, omega (arith, length-std_encode blob, h)) in
            rw (r, t, decodes) (back h),
      )

  -- readBlob reads a blob from the file that the seal command wrote for it, or from the line that
  -- it printed, exactly if the blob has 32 to 4128 bytes.
  pub read_blob_iff :
      TrimsSpace w
      → IsBlobFile w path blob
      → (read_blob w path ≡ ok blob) ↔ ((32 ≤ length blob) × (length blob ≤ 4128))
  read_blob_iff trims (inl f) =
      read_text (std_encode blob) f (trims.keeps _ (std_encode-IsGraphic blob bytes)) (omega arith)
  read_blob_iff trims (inr f) =
      read_text (std_encode blob ++ (10 ∷ [])) f (trims.cuts _ (std_encode-IsGraphic blob bytes))
        (omega (arith, length-append (std_encode blob) (10 ∷ [])))

-- A blob that readBlob returns has 32 to 4128 bytes.
pub read_blob_limits :
    (w : World) (path : Text) (blob : Bytes)
    → read_blob w path ≡ ok blob
    → (32 ≤ length blob) × (length blob ≤ 4128)
unfolding read_blob
read_blob_limits w path blob h = elim (Result-cases (read_bounded_file 16384 (w.file path))) [
  | inl (e, b) ↦ absurd (cc (rw b at h))
  | inr (read, r) ↦ elim (Option-cases (std_decode (w.trim_space read))) [
    | inl n ↦ absurd (cc (rw (r, n) at h))
    | inr (b, d) ↦ limits b (rw (r, d) at h)
  ]
]
  where
    limits : (b : Bytes) → blob_of (some b) ≡ ok blob → (32 ≤ length blob) × (length blob ≤ 4128)
    limits b k = unfold blob_of in ground arith
