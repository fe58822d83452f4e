-- ===== src/Secrets/Reading.antt =====
-- What is read of a secret after it was written, and after the files were encrypted or decrypted.
use Prim.Native.String.{◌++◌}
use mathlib.Core.List.{Memᴰ}
use text.Mathlib.TextLemmas.{append_cancel_left, append-nil}
use tempa.Base.{
  ℕ, suc, String, Bool, true, false, not, ◌&&◌, ◌||◌, Option, none, some, List, [], all, All-get,
  ◌==◌, ◌≡◌, ◌≢◌, refl, sym, ap, if◌then◌else◌, ◌∙◌, arith, inl, inr, Bool-cases, eq_iff, eq_refl,
}
use tempa.Base.Dict
use tempa.Base.Dict.{Dict, get-put, get-pop, get-put_self}
use tempa.Base.Text.{strip, ends_with}
use tempa.Secrets.{
  Files, Fernet, IsFernet, is_cr, translated, universal_newlines, enc_path, read_secret_file,
  write_secret_file, encrypt_file, encrypt_files, encrypt_sensitive_sessions, sensitive_files,
}

longer : (s : String) → (s ++ ".enc") ≢ s
longer s e = suffix_filled (append_cancel_left s ".enc" "" (e ∙ sym (append-nil s)))
  where
    suffix_filled : ◌≢◌ {A = String} ".enc" ""
    suffix_filled e = cc

enc-ne : (rel : String) → (enc_path rel == rel) ≡ false
unfolding enc_path
enc-ne rel = elim (Bool-cases (rel ++ ".enc" == rel)) [
  | inl same ↦ absurd (longer rel ((eq_iff (rel ++ ".enc") rel).0 same))
  | inr apart ↦ apart
]

ne-enc : (rel : String) → (rel == enc_path rel) ≡ false
unfolding enc_path
ne-enc rel = elim (Bool-cases (rel == rel ++ ".enc")) [
  | inl same ↦ absurd (longer rel (sym ((eq_iff rel (rel ++ ".enc")).0 same)))
  | inr apart ↦ apart
]

-- Another file, of which neither path is one of `g`'s.
abbrev is_apart : String → String → Bool
is_apart g rel =
    not (rel == g)
    && not (rel == enc_path g)
    && not (enc_path rel == g)
    && not (enc_path rel == enc_path g)

-- Every sensitive file is either `g` or apart from it.
sensitive_clear :
    (g : String)
    → Memᴰ g sensitive_files
    → all (λ rel. rel == g || is_apart g rel) sensitive_files ≡ true
unfolding enc_path
sensitive_clear g m =
    All-get (λ (h : String). all (λ rel. rel == h || is_apart h rel) sensitive_files ≡ true)
      (refl, (refl, (refl, (refl, tt)))) m

abbrev pub has_cr : String → Bool
has_cr String.[] = false
has_cr (String.◌∷◌ c s) = is_cr c || has_cr s

translated_same : (s : String) → has_cr s ≡ false → translated false s ≡ s
unfolding translated
translated_same String.[] h = refl
translated_same (String.◌∷◌ c s) h = elim (Bool-cases (is_cr c)) [
  | inl cr ↦ cc (cr, h)
  | inr other ↦ rw other (ap (String.◌∷◌ c) (translated_same s (rw other at h)))
]

-- A plain file that reads otherwise than its bytes would in the encrypted file: it is empty and
-- passed over, or has a carriage return.
abbrev pub reads_otherwise : Option String → Bool
reads_otherwise none = false
reads_otherwise (some s) = s == "" || has_cr s

module _ (f : Fernet) (laws : IsFernet f) where
  -- A secret that was written reads back without the spaces around it, whatever the files held,
  -- where it is encrypted or not empty. Where it is written in the clear, a carriage return in it,
  -- with or without a line feed after it, reads back as a line feed.
  pub read-write_secret_file :
      (draw : ℕ) (rel content : String) (encrypt : Bool) (files : Files)
      → (encrypt || not (content == "")) ≡ true
      → read_secret_file f rel (write_secret_file f draw rel content encrypt files)
        ≡ some (strip (if encrypt then content else universal_newlines content))
  unfolding read_secret_file write_secret_file
  read-write_secret_file draw rel content true files h = rw (
    get-pop,
    eq_refl rel,
    get-pop,
    ne-enc rel,
    get-put_self,
    laws.token_filled draw content,
    laws.decrypts draw content,
  )
  read-write_secret_file draw rel content false files h = rw (get-put_self, h)

  -- What a read sees of the files.
  abbrev Same : String → Files → Files → Type 0
  Same g files files' =
      (Dict.get files' g ≡ Dict.get files g)
      × (Dict.get files' (enc_path g) ≡ Dict.get files (enc_path g))

  read-Same :
      (g : String) (files files' : Files)
      → Same g files files'
      → read_secret_file f g files' ≡ read_secret_file f g files
  unfolding read_secret_file
  read-Same g files files' (plain, enc) = rw (plain, enc)

  encrypt_file-Same :
      (draw : ℕ) (g rel : String) (files : Files) (found : Option String)
      → is_apart g rel ≡ true
      → Same g files (encrypt_file f draw rel found files).1
  encrypt_file-Same draw g rel files none h = (refl, refl)
  encrypt_file-Same draw g rel files (some content) h = elim (Bool-cases (ends_with rel ".enc")) [
    | inl already ↦ rw already (refl, refl)
    | inr plain ↦ rw (plain, get-pop, get-put, get-pop, get-put) (ground arith)
  ]

  -- What a step of the loop keeps, for a secret whose plain file reads as its bytes.
  abbrev Keeps : String → Files → Files → Type 0
  Keeps g files files' =
      (reads_otherwise (Dict.get files' g) ≡ false)
      × (read_secret_file f g files' ≡ read_secret_file f g files)

  read_encrypted :
      (draw : ℕ) (g content : String) (files : Files)
      → read_secret_file f g (Dict.pop (Dict.put files (enc_path g) (f.encrypt draw content)) g)
        ≡ some (strip content)
  unfolding write_secret_file
  read_encrypted draw g content files = read-write_secret_file draw g content true files refl

  read_plain :
      (g content : String) (files : Files)
      → Dict.get files g ≡ some content
      → (content == "" || has_cr content) ≡ false
      → read_secret_file f g files ≡ some (strip content)
  unfolding read_secret_file universal_newlines
  read_plain g content files e h = elim (Bool-cases (content == "")) [
    | inl blank ↦ cc (blank, h)
    | inr filled ↦
        rw (e, filled) (ap (λ s. some (strip s)) (translated_same content (rw filled at h)))
  ]

  encrypt_self-Keeps :
      (draw : ℕ) (g : String) (files : Files) (found : Option String)
      → Dict.get files g ≡ found
      → reads_otherwise found ≡ false
      → Keeps g files (encrypt_file f draw g found files).1
  encrypt_self-Keeps draw g files none e h = (rw e h, refl)
  encrypt_self-Keeps draw g files (some content) e h = elim (Bool-cases (ends_with g ".enc")) [
    | inl already ↦ rw already (rw e h, refl)
    | inr plain ↦ rw plain (
      rw (get-pop, eq_refl g) refl,
      read_encrypted draw g content files ∙ sym (read_plain g content files e h),
    )
  ]

  encrypt_file-Keeps :
      (draw : ℕ) (g rel : String) (files : Files)
      → (rel == g || is_apart g rel) ≡ true
      → reads_otherwise (Dict.get files g) ≡ false
      → Keeps g files (encrypt_file f draw rel (Dict.get files rel) files).1
  encrypt_file-Keeps draw g rel files clear h = elim (Bool-cases (rel == g)) [
    | inl same ↦
        rw ((eq_iff rel g).0 same) (encrypt_self-Keeps draw g files (Dict.get files g) refl h)
    | inr other ↦
        let s = encrypt_file-Same draw g rel files (Dict.get files rel) (ground arith) in
        (rw s.0 h, read-Same g files (encrypt_file f draw rel (Dict.get files rel) files).1 s)
  ]

  read-encrypt_files :
      (draw : ℕ) (g : String) (rels : List String) (files : Files)
      → all (λ rel. rel == g || is_apart g rel) rels ≡ true
      → reads_otherwise (Dict.get files g) ≡ false
      → read_secret_file f g (encrypt_files f draw rels files).1 ≡ read_secret_file f g files
  unfolding encrypt_files
  read-encrypt_files draw g [] files clear h = refl
  read-encrypt_files draw g (List.◌∷◌ rel rels) files clear h =
      let k = encrypt_file-Keeps draw g rel files (ground arith) h in
      read-encrypt_files (suc draw) g rels (encrypt_file f draw rel (Dict.get files rel) files).1
        (ground arith) k.0
      ∙ k.1

  -- Encrypting the sensitive files changes no secret that is read: each of them reads as before,
  -- unless its plain file is there and is empty or has a carriage return.
  pub read-encrypt_sensitive_sessions :
      (draw : ℕ) (g : String) (files : Files)
      → Memᴰ g sensitive_files
      → reads_otherwise (Dict.get files g) ≡ false
      → read_secret_file f g (encrypt_sensitive_sessions f draw files).1
        ≡ read_secret_file f g files
  unfolding encrypt_sensitive_sessions
  read-encrypt_sensitive_sessions draw g files m h =
      read-encrypt_files draw g sensitive_files files (sensitive_clear g m) h

  loses :
      (draw : ℕ) (g : String) (rels : List String) (files : Files)
      → Dict.get files g ≡ some ""
      → ends_with g ".enc" ≡ false
      → all (λ rel. rel == g || is_apart g rel) rels ≡ true
      → read_secret_file f g (encrypt_files f draw (List.◌∷◌ g rels) files).1 ≡ some (strip "")
  unfolding encrypt_files
  loses draw g rels files plain suffix clear =
      rw (plain, suffix)
        (read-encrypt_files (suc draw) g rels
            (Dict.pop (Dict.put files (enc_path g) (f.encrypt draw "")) g) clear
            (rw (get-pop, eq_refl g) refl)
          ∙ read_encrypted draw g "" files)

  -- A key file that is there and empty is read past, to the secret in the encrypted file. But
  -- encrypting the sensitive files then overwrites that secret: afterwards the empty text is read.
  pub encrypt_loses :
      (draw : ℕ) (secret token : String) (files : Files)
      → Dict.get files "groq.key" ≡ some ""
      → Dict.get files "groq.key.enc" ≡ some token
      → (token == "") ≡ false
      → f.decrypt token ≡ some secret
      → (read_secret_file f "groq.key" files ≡ some (strip secret))
        × (read_secret_file f "groq.key" (encrypt_sensitive_sessions f draw files).1 ≡ some "")
  unfolding encrypt_sensitive_sessions read_secret_file enc_path
  encrypt_loses draw secret token files plain enc filled opens = (
    rw (plain, enc, filled, opens),
    loses draw "groq.key" _ files plain (unfold ends_with in refl) refl ∙ (unfold strip in refl),
  )
