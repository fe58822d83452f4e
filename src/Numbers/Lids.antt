-- ===== src/Numbers/Lids.antt =====
-- That a hidden identifier whose phone was remembered is answered as the phone is:
-- channels/whatsapp/numbers.py.
use tempa.Base.{
  String, Bool, true, false, not, ◌&&◌, ◌||◌, Option, none, some, List, [], ◌∷◌, ◌==◌, ◌≡◌, refl,
  sym, ap, ◌∙◌, subst, All, any, contains, if◌then◌else◌, Bool-cases, inl, inr, arith, eq_iff,
}
use tempa.Base.Dict
use tempa.Base.Dict.{Dict}
use tempa.Base.Value.{Value, str_or, text, is_text}
use tempa.Numbers.Phone.{normalize_phone, normalize_phone_idem, digits_of, digits_of_idem}
use tempa.Numbers.Allowed.{
  Store, get_allowed_whatsapp_reply_numbers, get_owner_whatsapp_number, get_bridge_whatsapp_phone,
  get_extra_allowed_whatsapp_numbers, load_linked_owner,
}
use tempa.Numbers.Delivery.{remember_lid_phone, user_of, lids_of}
use tempa.Numbers.Owner.{
  before, is_allowed, is_known_lid, is_lid_entry, is_key_allowed, key_of, is_nobody,
  is_owner_whatsapp_number,
}
use tempa.Numbers.Normal.{allowed-IsNumber, is_allowed-contains, IsNumber}

any-put :
    (p : String × Value → Bool) (d : Dict Value) (k : String) (v : Value)
    → p (k, v) ≡ true
    → any p (Dict.put d k v) ≡ true
unfolding Dict.put
any-put p [] k v h = rw h refl
any-put p ((j, w) ∷ d) k v h = elim (Bool-cases (j == k)) [
  | inl same ↦ rw same (rw ((eq_iff j k).0 same, h) refl)
  | inr apart ↦ let rest = any-put p d k v h in rw apart (ground arith)
]

text_is : (w : Value) (s : String) → is_text (some w) s ≡ true → w ≡ text s
text_is (text t) s e = ap text ((eq_iff t s).0 e)
text_is Value.null s e = absurd cc
text_is (Value.flag b) s e = absurd cc
text_is (Value.num n) s e = absurd cc
text_is (Value.time t) s e = absurd cc
text_is (Value.texts xs) s e = absurd cc
text_is (Value.doc d) s e = absurd cc

any-get :
    (p : String × Value → Bool) (d : Dict Value) (k : String) (s : String)
    → is_text (Dict.get d k) s ≡ true
    → p (k, text s) ≡ true
    → any p d ≡ true
unfolding Dict.get
any-get p [] k s e h = absurd cc
any-get p ((j, w) ∷ d) k s e h = elim (Bool-cases (j == k)) [
  | inl same ↦
      let e' : is_text (some w) s ≡ true =
        subst (λ b. is_text (if b then some w else Dict.get d k) s ≡ true) same e in
      rw ((eq_iff j k).0 same, text_is w s e', h) refl
  | inr apart ↦
      let rest =
        any-get p d k s (subst (λ b. is_text (if b then some w else Dict.get d k) s ≡ true) apart e)
          h in
      ground arith
]

abbrev lids_or : Option (Dict Value) → Dict Value
lids_or none = []
lids_or (some lids) = lids

known-any :
    (number chat_id : String) (allowed : List String) (found : Option (Dict Value))
    → is_known_lid number chat_id allowed found
      ≡ any (is_lid_entry number chat_id allowed) (lids_or found)
known-any number chat_id allowed none = refl
known-any number chat_id allowed (some lids) = refl

-- What remembering leaves among the entries.
any-remember :
    (p : String × Value → Bool) (lid phone : String) (store : Store)
    → (digits_of (user_of lid) == "") ≡ false
    → (normalize_phone phone == "") ≡ false
    → p (digits_of (user_of lid), text (normalize_phone phone)) ≡ true
    → any p (lids_or (load_linked_owner (remember_lid_phone lid phone store)).lid_phones) ≡ true
unfolding remember_lid_phone
any-remember p lid phone store key number h =
    let known =
      is_text (Dict.get (lids_of store) (digits_of (user_of lid))) (normalize_phone phone) in
    elim (Bool-cases known) [
      | inl there ↦
          rw (key, number, there)
            (any-get p (lids_of store) (digits_of (user_of lid)) (normalize_phone phone) there h)
      | inr new ↦
          rw (key, number, new)
            (any-put p (lids_of store) (digits_of (user_of lid)) (text (normalize_phone phone)) h)
    ]

allowed_apart :
    (lids : Dict Value) (store : Store)
    → get_allowed_whatsapp_reply_numbers (record store {
      linked_owner = some (record (load_linked_owner store) { lid_phones = some lids });
    })
      ≡ get_allowed_whatsapp_reply_numbers store
unfolding get_allowed_whatsapp_reply_numbers get_owner_whatsapp_number get_bridge_whatsapp_phone
    get_extra_allowed_whatsapp_numbers
allowed_apart lids store = refl

allowed-remember :
    (lid phone : String) (store : Store)
    → get_allowed_whatsapp_reply_numbers (remember_lid_phone lid phone store)
      ≡ get_allowed_whatsapp_reply_numbers store
unfolding remember_lid_phone
allowed-remember lid phone store =
    let key = digits_of (user_of lid) in
    let number = normalize_phone phone in
    elim (Bool-cases (key == "" || number == "" || is_text (Dict.get (lids_of store) key) number)) [
      | inl kept ↦ rw kept refl
      | inr new ↦ rw new (allowed_apart (Dict.put (lids_of store) key (text number)) store)
    ]

filled-contains :
    (allowed : List String) (phone : String)
    → All IsNumber allowed
    → contains allowed phone ≡ true
    → (phone == "") ≡ false
filled-contains [] phone h found = absurd cc
filled-contains (first ∷ allowed) phone h found = elim (Bool-cases (first == phone)) [
  | inl same ↦ rw (sym ((eq_iff first phone).0 same)) h.0.1
  | inr later ↦ filled-contains allowed phone h.1 (ground arith)
]

-- The entry for an identifier in its own chat.
is_lid_entry-remembered :
    (lid phone number : String) (allowed : List String)
    → All IsNumber allowed
    → (digits_of (user_of lid) == "") ≡ false
    → user_of lid ≡ before b'@' lid
    → contains allowed (normalize_phone phone) ≡ true
    → is_lid_entry number lid allowed (digits_of (user_of lid), text (normalize_phone phone)) ≡ true
is_lid_entry-remembered lid phone number allowed numbers key plain found =
    let same : digits_of (digits_of (user_of lid)) ≡ digits_of (before b'@' lid) =
      digits_of_idem (user_of lid) ∙ ap digits_of plain in
    let let_in : is_allowed allowed (normalize_phone phone) ≡ true =
      is_allowed-contains (normalize_phone phone) allowed numbers
      ∙ ap (contains allowed) (normalize_phone_idem phone)
      ∙ found in
    let mine =
      (eq_iff (digits_of (digits_of (user_of lid))) (digits_of (before b'@' lid))).1 same in
    let filled : (digits_of (digits_of (user_of lid)) == "") ≡ false =
      ap (λ d. d == "") (digits_of_idem (user_of lid)) ∙ key in
    ground arith

known_true : (a b c d e : Bool) → b ≡ true → (if a then true else b || c || d || e) ≡ true
known_true a b c d e h = ground arith

-- Once the phone behind a hidden identifier is remembered, a message in that identifier's chat is
-- answered where the phone is allowed: whatever its sender's number and raw item are, for an
-- identifier with digits and no part after a colon.
pub is_owner-remember :
    (lid phone number : String) (raw_item : Option (Option (Dict Value))) (store : Store)
    → (digits_of (user_of lid) == "") ≡ false
    → user_of lid ≡ before b'@' lid
    → contains (get_allowed_whatsapp_reply_numbers store) (normalize_phone phone) ≡ true
    → is_owner_whatsapp_number number lid raw_item (remember_lid_phone lid phone store) ≡ true
unfolding is_owner_whatsapp_number
is_owner-remember lid phone number raw_item store key plain found =
    let store' = remember_lid_phone lid phone store in
    let allowed = get_allowed_whatsapp_reply_numbers store in
    let entry =
      is_lid_entry-remembered lid phone number allowed (allowed-IsNumber store) key plain found in
    let filled = filled-contains allowed (normalize_phone phone) (allowed-IsNumber store) found in
    let known : is_known_lid number lid allowed (load_linked_owner store').lid_phones ≡ true =
      known-any number lid allowed (load_linked_owner store').lid_phones
      ∙ any-remember (is_lid_entry number lid allowed) lid phone store key filled entry in
    let allowed' = get_allowed_whatsapp_reply_numbers store' in
    let owner_jid = str_or (load_linked_owner store').owner_jid in
    known_true (is_nobody allowed')
      (is_known_lid number lid allowed' (load_linked_owner store').lid_phones)
      (is_key_allowed allowed' owner_jid lid (key_of raw_item))
      (not (lid == "") && not (owner_jid == "") && lid == owner_jid) (is_allowed allowed' number)
      (subst (λ a. is_known_lid number lid a (load_linked_owner store').lid_phones ≡ true)
        (sym (allowed-remember lid phone store)) known)
