-- ===== src/Pairing/Downloads.antt =====
-- How often a token can be used, and when.
use Prim.Native.Nat.{min}
use tempa.Base.{
  ℕ, zero, suc, ◌+◌, ◌-◌, ◌*◌, ◌≤◌, ◌<◌, String, true, false, ◌≡◌, refl, ◌∙◌, ap, Option, none,
  some, List, [], ◌∷◌, leb, ltb, arith, if◌then◌else◌, ◌==◌, eq_refl, All, length, inl, inr,
  Bool-cases,
}
use tempa.Base.Dict
use tempa.Base.Dict.{Dict, dict_laws, get-put, get-pop, get-put_self}
use tempa.Pairing.{
  Token, Tokens, TransferConfig, Surroundings, FileInfo, max_file_bytes, token_ttl, new_token,
  is_expired, create_transfer_token, use_token, consume_found, consume_token,
}

-- The number of downloads that a run of requests for one token gets, at the times given.
abbrev pub got : Option Token → ℕ
got none = 0
got (some r) = 1

pub downloads : String → List ℕ → Tokens → ℕ
downloads token [] tokens = 0
downloads token (now ∷ times) tokens =
    let (found, tokens') = consume_token token now tokens in
    got found + downloads token times tokens'

abbrev pub budget : Option Token → ℕ
budget none = 0
budget (some r) = r.downloads_remaining

-- One request spends what it gets.
consume_found-budget :
    (token : String) (now : ℕ) (tokens : Tokens) (o : Option Token)
    → Dict.get tokens token ≡ o
    → got (consume_found token now tokens o).0
        + budget (Dict.get (consume_found token now tokens o).1 token)
      ≤ budget o
unfolding consume_found
consume_found-budget token now tokens none h = rw h (omega arith)
consume_found-budget token now tokens (some r) h = ground (
  arith,
  get-pop tokens token token,
  get-put tokens token token (record r { downloads_remaining = r.downloads_remaining - 1 }),
  eq_refl token,
)

downloads-le-budget :
    (token : String) (times : List ℕ) (tokens : Tokens)
    → downloads token times tokens ≤ budget (Dict.get tokens token)
unfolding downloads consume_token
downloads-le-budget token [] tokens = omega arith
downloads-le-budget token (now ∷ times) tokens = omega (
  arith,
  consume_found-budget token now tokens (Dict.get tokens token) refl,
  downloads-le-budget token times (consume_found token now tokens (Dict.get tokens token)).1,
)

-- A request for another token leaves this one alone.
consume_found_other :
    (token other : String) (now : ℕ) (tokens : Tokens) (o : Option Token)
    → (token == other) ≡ false
    → Dict.get (consume_found token now tokens o).1 other ≡ Dict.get tokens other
unfolding consume_found
consume_found_other token other now tokens none h = refl
consume_found_other token other now tokens (some r) h = ground (
  arith,
  get-pop tokens token other,
  get-put tokens token other (record r { downloads_remaining = r.downloads_remaining - 1 }),
)

consume_live :
    (token : String) (now : ℕ) (tokens : Tokens) (r : Token)
    → Dict.get tokens token ≡ some r
    → is_expired now r ≡ false
    → leb r.downloads_remaining 0 ≡ false
    → consume_token token now tokens ≡ use_token token r tokens
unfolding consume_token
consume_live token now tokens r there fresh left = rw (there, consume_found) (rw (fresh, left))

after_use : Token → Option Token
after_use r =
    if leb (r.downloads_remaining - 1) 0
    then none
    else some (record r { downloads_remaining = r.downloads_remaining - 1 })

get-use_token :
    (token : String) (r : Token) (tokens : Tokens)
    → Dict.get (use_token token r tokens).1 token ≡ after_use r
unfolding use_token after_use
get-use_token token r tokens = elim (Bool-cases (leb (r.downloads_remaining - 1) 0)) [
  | inl last ↦ rw last (rw (get-pop, eq_refl token))
  | inr more ↦ rw more (rw (get-put, eq_refl token))
]

abbrev pub Before : ℕ → List ℕ → Type 0
Before e times = All (λ t. t < e) times

got-use_token :
    (token : String) (r : Token) (tokens : Tokens) → got (use_token token r tokens).0 ≡ 1
unfolding use_token
got-use_token token r tokens = refl

spent : (token : String) (r : Token) → r.downloads_remaining ≡ 1 → after_use r ≡ none
unfolding after_use
spent token r left = ground (arith, left)

more :
    (token : String) (r : Token) (k : ℕ)
    → r.downloads_remaining ≡ suc (suc k)
    → after_use r ≡ some (record r { downloads_remaining = r.downloads_remaining - 1 })
unfolding after_use
more token r k left = ground (arith, left)

stale : (now : ℕ) (r : Token) (e : ℕ) → r.expires_at ≡ some e → e ≤ now → is_expired now r ≡ true
stale now r e expiry late = ground (arith, expiry, late)

not_below : (a b : ℕ) → a ≤ b → ltb b a ≡ false
not_below a b h = ground arith

small :
    (c : TransferConfig) (f : FileInfo)
    → f.size ≤ max_file_bytes c
    → ltb (max_file_bytes c) f.size ≡ false
small c f fits = not_below f.size (max_file_bytes c) fits

get-create :
    (c : TransferConfig) (s : Surroundings) (f : FileInfo) (now : ℕ) (tokens : Tokens)
    → f.size ≤ max_file_bytes c
    → Dict.get (create_transfer_token c s (some f) now tokens).1 s.token ≡ some (new_token c f now)
unfolding create_transfer_token
get-create c s f now tokens fits =
    rw (small c f fits) (get-put_self tokens s.token (new_token c f now))

-- Before its expiry a token gives a download for each request until its count is spent.
downloads_live :
    (token : String) (e k : ℕ) (times : List ℕ) (tokens : Tokens) (r : Token)
    → Before e times
    → Dict.get tokens token ≡ some r
    → r.expires_at ≡ some e
    → r.downloads_remaining ≡ suc k
    → downloads token times tokens ≡ min (suc k) (length times)
unfolding downloads
downloads_live token e k [] tokens r early there expiry left = omega arith
downloads_live token e zero (now ∷ times) tokens r early there expiry left =
    rw
      (consume_live token now tokens r there (ground (arith, expiry, early.0))
        (ground (arith, left)))
      (omega (
        arith,
        got-use_token token r tokens,
        downloads-le-budget token times (use_token token r tokens).1,
        ap budget (get-use_token token r tokens ∙ spent token r left),
      ))
downloads_live token e (suc k) (now ∷ times) tokens r early there expiry left =
    rw
      (consume_live token now tokens r there (ground (arith, expiry, early.0))
        (ground (arith, left)))
      (omega (
        arith,
        got-use_token token r tokens,
        downloads_live token e k times (use_token token r tokens).1
            (record r { downloads_remaining = r.downloads_remaining - 1 }) early.1
            (get-use_token token r tokens ∙ more token r k left) expiry (omega (arith, left)),
      ))

-- A token that was created for a file within the limit never gives more than three downloads,
-- whatever the times of the requests.
pub downloads-create-le_three :
    (c : TransferConfig) (s : Surroundings) (f : FileInfo) (now : ℕ) (tokens : Tokens)
    (times : List ℕ)
    → f.size ≤ max_file_bytes c
    → downloads s.token times (create_transfer_token c s (some f) now tokens).1 ≤ 3
downloads-create-le_three c s f now tokens times fits = omega (
  arith,
  downloads-le-budget s.token times (create_transfer_token c s (some f) now tokens).1,
  ap budget (get-create c s f now tokens fits),
)

-- Before its expiry such a token gives one download for each request, up to three.
pub downloads-create :
    (c : TransferConfig) (s : Surroundings) (f : FileInfo) (now : ℕ) (tokens : Tokens)
    (times : List ℕ)
    → f.size ≤ max_file_bytes c
    → Before (now + token_ttl c * 1_000_000) times
    → downloads s.token times (create_transfer_token c s (some f) now tokens).1
      ≡ min 3 (length times)
downloads-create c s f now tokens times fits early =
    downloads_live s.token (now + token_ttl c * 1_000_000) 2 times
      (create_transfer_token c s (some f) now tokens).1 (new_token c f now) early
      (get-create c s f now tokens fits) refl refl

-- From its expiry on a token gives nothing and is gone, and the other tokens are as they were.
pub consume_token_expired :
    (token other : String) (e now : ℕ) (tokens : Tokens) (r : Token)
    → Dict.get tokens token ≡ some r
    → r.expires_at ≡ some e
    → e ≤ now
    → (consume_token token now tokens ≡ (none, Dict.pop tokens token))
      × (Dict.get (consume_token token now tokens).1 other
          ≡ (if token == other then none else Dict.get tokens other))
unfolding consume_token
consume_token_expired token other e now tokens r there expiry late =
    rw (there, consume_found) (rw (stale now r e expiry late) (refl, get-pop tokens token other))
