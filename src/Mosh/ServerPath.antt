-- ===== src/Mosh/ServerPath.antt =====
-- The server paths that `mosh_server_path` of leantty_ssh/src/lib.rs accepts.
use leantty.Prelude.{
  ℕ, ◌≤◌, Bool, true, false, List, [], ◌∷◌, ◌≡◌, ◌≢◌, ◌∙◌, arith, some, All, any, all, drop, Text,
  codes, text_eq_iff, str_len, split, starts_with, ok,
}
use leantty.Mosh.{is_path_byte, is_bad_segment, mosh_server_path}

pub all-All {ℓ} :
    {A : Type ℓ} (p : A → Bool) (xs : List A) → all p xs ≡ true → All (λ x. p x ≡ true) xs
all-All p [] h = tt
all-All p (x ∷ xs) h = ground (arith, all-All p xs)

any-false-All {ℓ} :
    {A : Type ℓ} (p : A → Bool) (xs : List A) → any p xs ≡ false → All (λ x. p x ≡ false) xs
any-false-All p [] h = tt
any-false-All p (x ∷ xs) h = ground (arith, any-false-All p xs)

All-map {ℓ κ μ} :
    {A : Type ℓ} (P : A → Type κ) (Q : A → Type μ) (xs : List A)
    → ((x : A) → P x → Q x)
    → All P xs
    → All Q xs
All-map P Q [] f h = tt
All-map P Q (x ∷ xs) f h = (f x h.0, All-map P Q xs f h.1)

-- A segment of a path that names one file: not empty, not a relative step, and of plain bytes.
abbrev pub IsSegment : Text → Type 0
IsSegment s = (s ≢ []) × (s ≢ codes ".") × (s ≢ codes "..") × All (λ c. is_path_byte c ≡ true) s

is_bad_segment-IsSegment : (s : Text) → is_bad_segment s ≡ false → IsSegment s
unfolding is_bad_segment
is_bad_segment-IsSegment s h =
    ground (arith, text_eq_iff s (codes "."), text_eq_iff s (codes ".."), all-All is_path_byte s)

split-root : (s : Text) → starts_with s (codes "/") ≡ true → (r : Text) × (s ≡ b'/' ∷ r)
unfolding starts_with
split-root [] h = absurd (cc)
split-root (c ∷ r) h = (r, ground arith)

split-cons_sep : (sep : ℕ) (s : Text) → split sep (sep ∷ s) ≡ [] ∷ split sep s
unfolding split
split-cons_sep sep s = ground arith

accepted_facts :
    (value p : Text)
    → mosh_server_path value ≡ ok (some p)
    → (p ≡ value)
      × (str_len value ≤ 1024)
      × (starts_with value (codes "/") ≡ true)
      × (any is_bad_segment (drop 1 (split b'/' value)) ≡ false)
unfolding mosh_server_path
accepted_facts value p h = ground arith

pub mosh_server_path_lem :
    (value p : Text)
    → mosh_server_path value ≡ ok (some p)
    → (p ≡ value)
      × (str_len p ≤ 1024)
      × ((rest : Text) × (p ≡ b'/' ∷ rest) × All IsSegment (split b'/' rest))
mosh_server_path_lem value p h =
    let (same, short, rooted, good) = accepted_facts value p h in
    let (rest, e) = split-root value rooted in
    let pieces : split b'/' value ≡ [] ∷ split b'/' rest = rw e (split-cons_sep b'/' rest) in
    (
      same,
      rw same short,
      (
        rest,
        same ∙ e,
        All-map _ _ (split b'/' rest) is_bad_segment-IsSegment
            (any-false-All is_bad_segment (split b'/' rest) (rw pieces at good)),
      ),
    )
