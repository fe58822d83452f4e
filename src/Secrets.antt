-- ===== src/Secrets.antt =====
-- The secrets of the sessions directory, encrypted at rest: security/sessions.py of src/tempa. The
-- state is the files below the directory, by their relative paths; a file's bytes are the text that
-- they encode. Text is written as it is, as `write_text` does where lines end with a line feed.
mod Examples
pub mod Reading
use Prim.Native.Char.{Char, code}
use Prim.Native.String
use Prim.Native.String.{◌++◌}
use tempa.Base.{
  ℕ, suc, String, Bool, true, false, not, ◌&&◌, ◌||◌, Option, none, some, List, [], ◌∷◌, ◌==◌, ◌≡◌,
  ◌+◌, if◌then◌else◌, eqb,
}
use tempa.Base.Dict
use tempa.Base.Dict.{Dict}
use tempa.Base.Text.{strip, ends_with}

abbrev pub Files : Type 0
Files = Dict String

-- The cipher of the `cryptography` package under the master key. A token depends on the draw of a
-- nonce; `none` is the InvalidToken that `decrypt` raises.
pub record Fernet : Type 0 where
  pub encrypt : (draw : ℕ) → String → String
  pub decrypt : String → Option String

-- What the package documents: a token decrypts to its text, and is not empty.
pub record IsFernet (f : Fernet) : Type 0 where
  pub decrypts : (draw : ℕ) (s : String) → f.decrypt (f.encrypt draw s) ≡ some s
  pub token_filled : (draw : ℕ) (s : String) → (f.encrypt draw s == "") ≡ false

abbrev pub sensitive_files : List String
sensitive_files =
    "groq.key" ∷ "google/token.json" ∷ "google/storage_state.json" ∷ "gmail/token.json" ∷ []

-- `path.with_suffix(path.suffix + ".enc")`
unfoldable pub enc_path : String → String
enc_path rel = rel ++ ".enc"

-- `path.exists() and path.stat().st_size > 0`
abbrev pub is_filled : Option String → Bool
is_filled none = false
is_filled (some s) = not (s == "")

abbrev pub stripped : Option String → Option String
stripped none = none
stripped (some s) = some (strip s)

abbrev pub is_cr : Char → Bool
is_cr c = eqb (code c) 13

-- What `read_text` makes of the line ends: a carriage return, with the line feed after it or without
-- one, is read as a line feed. `after_cr` is set where the last character was a carriage return.
unfoldable pub translated : (after_cr : Bool) → String → String
translated after_cr String.[] = ""
translated after_cr (String.◌∷◌ c s) =
    let rest = translated (is_cr c) s in
    if after_cr && eqb (code c) 10 then rest else String.◌∷◌ (if is_cr c then "\n" else c) rest

unfoldable pub universal_newlines : String → String
universal_newlines s = translated false s

abbrev pub text_of : Option String → String
text_of none = ""
text_of (some s) = s

unfoldable pub secret_file_exists : String → Files → Bool
secret_file_exists rel files =
    is_filled (Dict.get files rel) || is_filled (Dict.get files (enc_path rel))

unfoldable pub delete_secret_file : String → Files → Files
delete_secret_file rel files = Dict.pop (Dict.pop files rel) (enc_path rel)

module _ (f : Fernet) where
  -- `none` where the decryption raises.
  unfoldable pub read_secret_file : String → Files → Option String
  read_secret_file rel files =
      if is_filled (Dict.get files rel)
      then some (strip (universal_newlines (text_of (Dict.get files rel))))
      else if is_filled (Dict.get files (enc_path rel))
      then stripped (f.decrypt (text_of (Dict.get files (enc_path rel))))
      else some ""

  unfoldable pub write_secret_file :
      (draw : ℕ) (rel content : String) (encrypt : Bool) → Files → Files
  write_secret_file draw rel content true files =
      Dict.pop (Dict.put files (enc_path rel) (f.encrypt draw content)) rel
  write_secret_file draw rel content false files = Dict.put files rel content

  abbrev pub encrypt_file : (draw : ℕ) → String → Option String → Files → ℕ × Files
  encrypt_file draw rel none files = (0, files)
  encrypt_file draw rel (some content) files =
      if ends_with rel ".enc"
      then (0, files)
      else (1, Dict.pop (Dict.put files (enc_path rel) (f.encrypt draw content)) rel)

  -- The loop of `encrypt_sensitive_sessions`; `draw` stands for the nonces, one for each file.
  unfoldable pub encrypt_files : (draw : ℕ) → List String → Files → ℕ × Files
  encrypt_files draw [] files = (0, files)
  encrypt_files draw (rel ∷ rels) files =
      let (n, files') = encrypt_file draw rel (Dict.get files rel) files in
      let (m, files'') = encrypt_files (suc draw) rels files' in (n + m, files'')

  unfoldable pub encrypt_sensitive_sessions : (draw : ℕ) → Files → ℕ × Files
  encrypt_sensitive_sessions draw files = encrypt_files draw sensitive_files files

  -- A token that does not decrypt is logged and passed over.
  abbrev pub write_plain : String → Option String → Files → ℕ × Files
  write_plain rel none files = (0, files)
  write_plain rel (some content) files = (1, Dict.put files rel content)

  abbrev pub decrypt_file : String → Option String → Files → ℕ × Files
  decrypt_file rel none files = (0, files)
  decrypt_file rel (some token) files = write_plain rel (f.decrypt token) files

  unfoldable pub decrypt_files : List String → Files → ℕ × Files
  decrypt_files [] files = (0, files)
  decrypt_files (rel ∷ rels) files =
      let (n, files') = decrypt_file rel (Dict.get files (enc_path rel)) files in
      let (m, files'') = decrypt_files rels files' in (n + m, files'')

  unfoldable pub decrypt_sensitive_sessions : Files → ℕ × Files
  decrypt_sensitive_sessions files = decrypt_files sensitive_files files
