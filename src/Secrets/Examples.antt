-- ===== src/Secrets/Examples.antt =====
-- A toy cipher that puts a letter in front of the text, and a directory with two secrets.
use mathlib.Core.List.{Memᴰ}
use Prim.Native.String.{[], ◌∷◌}
use tempa.Base.{
  String, true, false, Option, none, some, List, ◌==◌, ◌≡◌, ◌≢◌, refl, inl, inr, eq_iff, Bool-cases,
}
use tempa.Base.Dict
use tempa.Base.Text.{strip}
use tempa.Secrets.{
  Files, Fernet, IsFernet, translated, universal_newlines, read_secret_file, write_secret_file,
  encrypt_sensitive_sessions,
}
use tempa.Secrets.Reading.{read-write_secret_file, read-encrypt_sensitive_sessions, encrypt_loses}

abbrev toy_decrypt : String → Option String
toy_decrypt [] = none
toy_decrypt (c ∷ s) = some s

abbrev toy : Fernet
toy = record { encrypt = λ draw s. "k" ∷ s; decrypt = toy_decrypt }

filled : (s : String) → (toy.encrypt 0 s == "") ≡ false
filled s = elim (Bool-cases (toy.encrypt 0 s == "")) [
  | inl same ↦ absurd (letter ((eq_iff (toy.encrypt 0 s) "").0 same))
  | inr apart ↦ apart
]
  where
    letter : toy.encrypt 0 s ≢ ""
    letter e = cc

toy-IsFernet : IsFernet toy
toy-IsFernet = record { decrypts = λ draw s. refl; token_filled = λ draw s. filled s }

abbrev files : Files
files = List.◌∷◌ ("groq.key", " gsk ") (List.◌∷◌ ("gmail/token.json.enc", "k{}") List.[])

abbrev raced : Files
raced = List.◌∷◌ ("groq.key", "") (List.◌∷◌ ("groq.key.enc", "kgsk") List.[])

newlines : universal_newlines "a\r\nb\rc\n" ≡ "a\nb\nc\n"
unfolding universal_newlines translated
newlines = refl

read-write_secret_file_example :
    read_secret_file toy "groq.key" (write_secret_file toy 7 "groq.key" " new " true files)
    ≡ some (strip " new ")
read-write_secret_file_example =
    read-write_secret_file toy toy-IsFernet 7 "groq.key" " new " true files refl

read-encrypt_sensitive_sessions_example :
    read_secret_file toy "groq.key" (encrypt_sensitive_sessions toy 7 files).1
    ≡ read_secret_file toy "groq.key" files
unfolding Dict.get
read-encrypt_sensitive_sessions_example =
    read-encrypt_sensitive_sessions toy toy-IsFernet 7 "groq.key" files (Memᴰ.head refl) refl

encrypt_loses_example :
    (read_secret_file toy "groq.key" raced ≡ some (strip "gsk"))
    × (read_secret_file toy "groq.key" (encrypt_sensitive_sessions toy 7 raced).1 ≡ some "")
unfolding Dict.get
encrypt_loses_example = encrypt_loses toy toy-IsFernet 7 "gsk" "kgsk" raced refl refl refl refl
