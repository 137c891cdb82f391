-- ===== src/Wire/Account.antt =====
-- src/wire.rs, `validate_account_id`: the accepted names, by a grammar.
use xus_miner.Common.{
  ℕ, ◌≤◌, ◌≡◌, ◌↔◌, refl, sym, ap, ◌∙◌, Bool, true, false, List, [], ◌∷◌, length, Str, as_bytes,
  Bool-cases, inl, inr, arith,
}
use xus_miner.Wire.{
  valid, is_separator, is_alphanumeric, first_byte, last_byte, scan_bytes, validate_bytes,
  validate_account_id,
}

-- Runs of letters and digits, with single separators between them.
pub data IsName : List ℕ → Type 0 where
  ends : {b : ℕ} → is_alphanumeric b ≡ true → IsName (b ∷ [])
  goes : {b : ℕ} {bs : List ℕ} → is_alphanumeric b ≡ true → IsName bs → IsName (b ∷ bs)
  parts :
      {b s : ℕ} {bs : List ℕ}
      → is_alphanumeric b ≡ true
      → is_separator s ≡ true
      → IsName bs
      → IsName (b ∷ s ∷ bs)

alphanumeric_separates : (b : ℕ) → is_alphanumeric b ≡ true → is_separator b ≡ false
unfolding is_alphanumeric is_separator
alphanumeric_separates b h = ground arith

scan_after_separator :
    (p : Bool) (bs : List ℕ)
    → is_separator (first_byte bs) ≡ false
    → scan_bytes p bs ≡ scan_bytes false bs
unfolding scan_bytes first_byte
scan_after_separator p [] h = refl
scan_after_separator p (b ∷ bs) h = ground arith

-- What the scan accepts behind a separator does not begin with one.
scan_true-first : (b : ℕ) (bs : List ℕ) → scan_bytes true (b ∷ bs) ≡ valid → is_separator b ≡ false
unfolding scan_bytes
scan_true-first b bs h = ground arith

scan_step :
    (p : Bool) (b : ℕ) (bs : List ℕ)
    → scan_bytes p (b ∷ bs) ≡ valid
    → scan_bytes (is_separator b) bs ≡ valid
unfolding scan_bytes
scan_step p b bs h = ground arith

scan_char :
    (p : Bool) (b : ℕ) (bs : List ℕ)
    → scan_bytes p (b ∷ bs) ≡ valid
    → is_separator b ≡ false
    → is_alphanumeric b ≡ true
unfolding scan_bytes
scan_char p b bs h s = ground arith

scan-IsName :
    (b : ℕ) (bs : List ℕ)
    → scan_bytes false (b ∷ bs) ≡ valid
    → is_separator b ≡ false
    → is_separator (last_byte (b ∷ bs)) ≡ false
    → IsName (b ∷ bs)
unfolding last_byte
scan-IsName b [] ok first last = ends (scan_char false b [] ok first)
scan-IsName b (c ∷ []) ok first last =
    let rest = scan_step false b (c ∷ []) ok in
    goes (scan_char false b (c ∷ []) ok first) (ends (scan_char (is_separator b) c [] rest last))
scan-IsName b (c ∷ d ∷ bs) ok first last =
    let alnum = scan_char false b (c ∷ d ∷ bs) ok first in
    let rest : scan_bytes false (c ∷ d ∷ bs) ≡ valid =
      rw first at (scan_step false b (c ∷ d ∷ bs) ok) in
    elim (Bool-cases (is_separator c)) [
      | inl sep ↦
          let behind : scan_bytes true (d ∷ bs) ≡ valid =
            rw sep at (scan_step false c (d ∷ bs) rest) in
          let starts = scan_true-first d bs behind in
          parts alnum sep (
            scan-IsName d bs
              (sym (scan_after_separator true (d ∷ bs) (unfold first_byte in starts)) ∙ behind)
              starts last)
      | inr letter ↦ goes alnum (scan-IsName c (d ∷ bs) rest letter last)
    ]

last_byte-cons : {bs : List ℕ} (b : ℕ) → IsName bs → last_byte (b ∷ bs) ≡ last_byte bs
unfolding last_byte
last_byte-cons b (ends h) = refl
last_byte-cons b (goes h n) = refl
last_byte-cons b (parts h s n) = refl

scan_alphanumeric :
    (p : Bool) (b : ℕ) (bs : List ℕ)
    → is_alphanumeric b ≡ true
    → scan_bytes p (b ∷ bs) ≡ scan_bytes false bs
unfolding scan_bytes
scan_alphanumeric p b bs h = ground (arith, alphanumeric_separates b h)

scan_separator :
    (b : ℕ) (bs : List ℕ) → is_separator b ≡ true → scan_bytes false (b ∷ bs) ≡ scan_bytes true bs
unfolding scan_bytes
scan_separator b bs h = ground arith

IsName-scan :
    {bs : List ℕ}
    → IsName bs
    → (scan_bytes false bs ≡ valid)
      × (is_separator (first_byte bs) ≡ false)
      × (is_separator (last_byte bs) ≡ false)
unfolding first_byte last_byte
IsName-scan (ends {b = b} h) = (
  scan_alphanumeric false b [] h ∙ (unfold scan_bytes in refl),
  alphanumeric_separates b h,
  alphanumeric_separates b h,
)
IsName-scan (goes {b = b} {bs = bs} h n) =
    let (scanned, _, last) = IsName-scan n in
    (
      scan_alphanumeric false b bs h ∙ scanned,
      alphanumeric_separates b h,
      ap is_separator (last_byte-cons b n) ∙ last,
    )
IsName-scan (parts {b = b} {s = s} {bs = bs} h sep n) =
    let (scanned, first, last) = IsName-scan n in
    (
      scan_alphanumeric false b (s ∷ bs) h
          ∙ scan_separator s bs sep
          ∙ scan_after_separator true bs first
          ∙ scanned,
      alphanumeric_separates b h,
      ap is_separator (last_byte-cons s n) ∙ last,
    )

bytes-valid :
    (bs : List ℕ)
    → 2 ≤ length bs
    → length bs ≤ 64
    → (is_separator (first_byte bs) ≡ false)
      × (is_separator (last_byte bs) ≡ false)
      × (scan_bytes false bs ≡ valid)
    → validate_bytes bs ≡ valid
unfolding validate_bytes
bytes-valid bs h k (first, last, scanned) = ground arith

valid-bytes :
    (bs : List ℕ)
    → validate_bytes bs ≡ valid
    → (2 ≤ length bs)
      × (length bs ≤ 64)
      × (is_separator (first_byte bs) ≡ false)
      × (is_separator (last_byte bs) ≡ false)
      × (scan_bytes false bs ≡ valid)
unfolding validate_bytes
valid-bytes bs e = ground arith

validate_bytes_iff :
    (bs : List ℕ) → (validate_bytes bs ≡ valid) ↔ (IsName bs × (2 ≤ length bs) × (length bs ≤ 64))
validate_bytes_iff [] =
    (λ e. absurd (omega (arith, (valid-bytes [] e).0)), λ n. absurd (omega arith))
validate_bytes_iff (b ∷ bs) = (
  λ e.
      let (enough, few, first, last, scanned) = valid-bytes (b ∷ bs) e in
      (scan-IsName b bs scanned (unfold first_byte in first) last, enough, few),
  λ n.
      let (scanned, first, last) = IsName-scan n.0 in
      bytes-valid (b ∷ bs) n.1 n.2 (first, last, scanned),
)

-- An account name is accepted exactly when it has 2 to 64 bytes that are runs of lower-case letters
-- and digits with single separators between them.
pub validate_account_id_iff :
    (account : Str)
    → (validate_account_id account ≡ valid) ↔ (
        IsName (as_bytes account)
        × (2 ≤ length (as_bytes account))
        × (length (as_bytes account) ≤ 64))
unfolding validate_account_id
validate_account_id_iff account = validate_bytes_iff (as_bytes account)
