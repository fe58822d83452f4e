-- ===== src/Pairing.antt =====
-- The download tokens of file transfers: pc/transfer/pairing.py of src/tempa.
mod Examples
pub mod Downloads
use Prim.Native.String.{◌++◌ as append}
use tempa.Base.{
  ℕ, zero, suc, ◌+◌, ◌-◌, ◌*◌, String, Bool, true, false, Option, none, some, List, [], ◌∷◌, leb,
  ltb, eqb, if◌then◌else◌,
}
use tempa.Base.Dict
use tempa.Base.Dict.{Dict}
use tempa.Base.Value.{str_ℕ}

-- `expires_at` is `none` where it is no time, which `consume_token` passes over.
pub record Token : Type 0 where
  pub path : String
  pub filename : String
  pub size : ℕ
  pub expires_at : Option ℕ
  pub downloads_remaining : ℕ

-- `_active_tokens`
abbrev pub Tokens : Type 0
Tokens = Dict Token

-- The `transfer` section of permissions.yaml, with the defaults of the getters.
pub record TransferConfig : Type 0 where
  pub token_ttl_seconds : Option ℕ
  pub max_file_mb : Option ℕ
  pub port : Option ℕ

abbrev or_else : Option ℕ → ℕ → ℕ
or_else none d = d
or_else (some n) d = n

abbrev pub token_ttl : TransferConfig → ℕ
token_ttl c = or_else c.token_ttl_seconds 300

abbrev pub max_file_bytes : TransferConfig → ℕ
max_file_bytes c = or_else c.max_file_mb 100 * 1024 * 1024

-- A file that exists and is a file, as the file system answers: its resolved path, name and size.
pub record FileInfo : Type 0 where
  pub path : String
  pub name : String
  pub size : ℕ

pub data Reply : Type 0 where
  file_not_found : Reply
  too_large : ℕ → Reply
  ready : (token url filename : String) (size expires_at : ℕ) → (qr_image : Option String) → Reply

-- What the code gets from elsewhere: the token that `secrets` gave, the address of this host, and the
-- picture of an address, if the QR library is there.
pub record Surroundings : Type 0 where
  pub token : String
  pub host : String
  pub qr_image : String → Option String

abbrev pub new_token : TransferConfig → FileInfo → ℕ → Token
new_token c f now = record {
  path = f.path;
  filename = f.name;
  size = f.size;
  expires_at = some (now + token_ttl c * 1_000_000);
  downloads_remaining = 3;
}

abbrev download_url : TransferConfig → Surroundings → String
download_url c s = append "http://" (
    append s.host (append ":" (append (str_ℕ (or_else c.port 8788)) (append "/download/" s.token))))

unfoldable pub create_transfer_token :
    TransferConfig → Surroundings → Option FileInfo → ℕ → Tokens → Reply × Tokens
create_transfer_token c s none now tokens = (file_not_found, tokens)
create_transfer_token c s (some f) now tokens =
    if ltb (max_file_bytes c) f.size then (too_large f.size, tokens) else (
      ready s.token (download_url c s) f.name f.size (now + token_ttl c * 1_000_000)
          (s.qr_image (download_url c s)),
      Dict.put tokens s.token (new_token c f now),
    )

abbrev pub is_expired : ℕ → Token → Bool
is_expired now r = elim r.expires_at [ none ↦ false | some e ↦ leb e now ]

-- The record after one more download; the last one takes it out of the tokens.
unfoldable pub use_token : String → Token → Tokens → Option Token × Tokens
use_token token r tokens =
    let r' : Token = record r { downloads_remaining = r.downloads_remaining - 1 } in
    (
      some r',
      (if leb r'.downloads_remaining 0 then Dict.pop tokens token else Dict.put tokens token r'),
    )

unfoldable pub consume_found : String → ℕ → Tokens → Option Token → Option Token × Tokens
unfolding use_token
consume_found token now tokens none = (none, tokens)
consume_found token now tokens (some r) =
    if is_expired now r
    then (none, Dict.pop tokens token)
    else if leb r.downloads_remaining 0
    then (none, Dict.pop tokens token)
    else use_token token r tokens

unfoldable pub consume_token : String → ℕ → Tokens → Option Token × Tokens
unfolding consume_found
consume_token token now tokens = consume_found token now tokens (Dict.get tokens token)
