-- ===== src/Keys/Exported.antt =====
-- `export_key_pair` of leantty_ssh/leantty-ssh-core/src/keygen.rs as a whole.
use leantty.Prelude.{
  ℕ, Bool, ◌++◌, Option, none, ◌≡◌, ◌≢◌, refl, sym, ◌∙◌, ap, arith, Text, codes, text_eq_iff,
  Result, ok, err, guard, length, length-append, ◌∷◌, is_empty, ◌||◌, Bool-cases, inl, inr,
}
use leantty.Keys.Disk.{Disk, Failure, Io, and_then, pure, label, touch, copy, create_new}
use leantty.Keys.Disk.{caught, remove_file}
use leantty.Keys.Frame.{and_then_rule, and_then_steps, create_new-Keeps}
use leantty.Keys.Paths.{join_path, ends_in_slash}
use leantty.Keys.Names.{IsFileName, validate_export_file_name, validate_export_file_name-IsFileName}
use leantty.Keys.Pairs.{
  vacant, on_failure, remove_both, copy_pair, open_source, export_to, export_key_pair,
}
use leantty.Keys.Fresh.{
  Spares, vacant-free, free-ne, on_failure-ok, on_failure-Keeps, removed-Keeps, export_to-Keeps,
}

module _ (os : ℕ → Option Failure) where
  copy-ok :
      (from to : Text) (d : Disk)
      → (copy os from to d).1 ≡ ok tt
      → (copy os from to d).0.files to ≡ d.files from
  unfolding copy
  copy-ok from to d h = ground (arith, text_eq_iff to to)

  module _ (from from' a b : Text) (apart : b ≢ a) (away : a ≢ from') where
    copy_pair-ok :
        (d : Disk)
        → (copy_pair os from from' a b d).1 ≡ ok tt
        → ((copy_pair os from from' a b d).0.files a ≡ d.files from)
          × ((copy_pair os from from' a b d).0.files b ≡ d.files from')
    unfolding copy_pair copy touch
    copy_pair-ok d h =
        ground (arith, text_eq_iff a a, text_eq_iff b b, text_eq_iff b a, text_eq_iff a from')

open_source-some :
    (os : ℕ → Option Failure) (p message : Text) (d : Disk)
    → (open_source os p message d).1 ≡ ok tt
    → d.files p ≢ none
unfolding touch
open_source-some os p message d h e = ground arith

opened-same :
    (os : ℕ → Option Failure) (p message q : Text) (d : Disk)
    → (open_source os p message d).0.files q ≡ d.files q
unfolding touch
opened-same os p message q d = ground arith

module _ (os : ℕ → Option Failure) (from from' a b : Text) (d : Disk) (free : d.files a ≡ none)
    (free' : d.files b ≡ none) (apart : a ≢ b) where
  -- What an export that succeeded leaves at the two destinations.
  export_to-ok :
      (export_to os from from' a b d).1 ≡ ok tt
      → ((export_to os from from' a b d).0.files a ≡ d.files from)
        × ((export_to os from from' a b d).0.files b ≡ d.files from')
  unfolding export_to
  export_to-ok h =
      let undo : Io (Unit {0}) = λ d. and_then (caught (remove_file os a) d) (λ _. pure (ok tt)) in
      let create : Io (Unit {0}) =
        λ d. on_failure os undo (codes "create public export failed: ") (create_new os b d) in
      let move : Io (Unit {0}) = λ d.
        on_failure os (remove_both os a b) (codes "write export failed: ")
          (copy_pair os from from' a b d) in
      let r1 : Disk × Result (Unit {0}) Text =
        open_source os from (codes "open private key failed: ") d in
      let (u1, o1, h1, e1) = and_then_steps r1 _ h in
      let r2 : Disk × Result (Unit {0}) Text =
        open_source os from' (codes "open public key failed: ") r1.0 in
      let (u2, o2, h2, e2) = and_then_steps r2 _ h1 in
      let r3 : Disk × Result (Unit {0}) Text =
        label (codes "create export failed: ") (create_new os a) r2.0 in
      let (u3, o3, h3, e3) = and_then_steps r3 (λ _ d. and_then (create d) (λ _. move)) h2 in
      let r4 : Disk × Result (Unit {0}) Text = create r3.0 in
      let (u4, o4, h4, e4) = and_then_steps r4 (λ _. move) h3 in
      let there : d.files from ≢ none =
        open_source-some os from (codes "open private key failed: ") d o1 in
      let same1 : (q : Text) → r1.0.files q ≡ d.files q =
        λ q. opened-same os from (codes "open private key failed: ") q d in
      let there' : d.files from' ≢ none = λ e.
        open_source-some os from' (codes "open public key failed: ") r1.0 o2 (same1 from' ∙ e) in
      let kept : (q : Text) → a ≢ q → b ≢ q → r4.0.files q ≡ d.files q = λ q away off.
        on_failure-Keeps os q undo (create_new os b) (codes "create public export failed: ")
          (removed-Keeps os q a away) (create_new-Keeps q os b off) r3.0
        ∙ create_new-Keeps q os a away r2.0
        ∙ opened-same os from' (codes "open public key failed: ") q r1.0
        ∙ same1 q in
      let away : (p q : Text) → d.files p ≡ none → d.files q ≢ none → p ≢ q =
        λ p q f h same. h (ap d.files (sym same) ∙ f) in
      let c : Disk × Result (Unit {0}) Text = copy_pair os from from' a b r4.0 in
      let (copied, at_a) =
        on_failure-ok os a (remove_both os a b) (codes "write export failed: ") c h4 in
      let (copied', at_b) =
        on_failure-ok os b (remove_both os a b) (codes "write export failed: ") c h4 in
      let (holds, holds') =
        copy_pair-ok os from from' a b (λ e. apart (sym e)) (away a from' free there') r4.0
          copied in
      let end : (export_to os from from' a b d).0 ≡ (move r4.0).0 = e1 ∙ e2 ∙ e3 ∙ e4 in
      (
        ap (λ x. x.files a) end
            ∙ at_a
            ∙ holds
            ∙ kept from (away a from free there) (away b from free' there),
        ap (λ x. x.files b) end
            ∙ at_b
            ∙ holds'
            ∙ kept from' (away a from' free there') (away b from' free' there'),
      )

module _ (os : ℕ → Option Failure) (from from' output_dir file_name : Text) (d : Disk) where
  abbrev pub IsPair : Disk → Type 0
  IsPair d' =
      let a = join_path output_dir file_name in
      let b = join_path output_dir (file_name ++ codes ".pub") in
      IsFileName file_name
      × (d.files a ≡ none)
      × (d.files b ≡ none)
      × (d'.files a ≡ d.files from)
      × (d'.files b ≡ d.files from')

  abbrev pub MakesPair : Disk × Result (Unit {0}) Text → Type 0
  MakesPair (d', ok u) = IsPair d'
  MakesPair (d', err e) = Unit

  -- What an export leaves behind.
  abbrev pub IsExported : Disk × Result (Unit {0}) Text → Type 0
  IsExported r = Spares d r × MakesPair r

  makes_pair : (r : Disk × Result (Unit {0}) Text) → (r.1 ≡ ok tt → IsPair r.0) → MakesPair r
  makes_pair (d', ok u) h = h refl
  makes_pair (d', err e) h = tt

  join_path-ne : join_path output_dir file_name ≢ join_path output_dir (file_name ++ codes ".pub")
  unfolding join_path
  join_path-ne e = elim (Bool-cases (is_empty output_dir || ends_in_slash output_dir)) [
    | inl bare ↦ longer output_dir (rw bare at e)
    | inr slash ↦ longer' output_dir (rw slash at e)
  ]
    where
      longer : (dir : Text) → dir ++ file_name ≢ dir ++ (file_name ++ codes ".pub")
      longer dir same = absurd (
          omega (
            arith,
            ap length same,
            length-append dir file_name,
            length-append dir (file_name ++ codes ".pub"),
            length-append file_name (codes ".pub"),
          ))

      longer' :
          (dir : Text) → dir ++ (b'/' ∷ file_name) ≢ dir ++ (b'/' ∷ (file_name ++ codes ".pub"))
      longer' dir same = absurd (
          omega (
            arith,
            ap length same,
            length-append dir (b'/' ∷ file_name),
            length-append dir (b'/' ∷ (file_name ++ codes ".pub")),
            length-append file_name (codes ".pub"),
          ))

  stopped-IsExported : (e : Text) → IsExported (d, err e)
  stopped-IsExported e = (λ q c was. was, tt)

  written-IsExported :
      IsFileName file_name
      → d.files (join_path output_dir file_name) ≡ none
      → d.files (join_path output_dir (file_name ++ codes ".pub")) ≡ none
      → IsExported (
          export_to os from from'
            (join_path output_dir file_name)
            (join_path output_dir (file_name ++ codes ".pub"))
            d)
  written-IsExported named free free' =
      let a : Text = join_path output_dir file_name in
      let b : Text = join_path output_dir (file_name ++ codes ".pub") in
      (
        λ q c was.
            export_to-Keeps os q a b (free-ne d a q c free was) (free-ne d b q c free' was) from
              from' d
            ∙ was,
        makes_pair (export_to os from from' a b d) (λ h.
            let (held, held') = export_to-ok os from from' a b d free free' join_path-ne h in
            (named, free, free', held, held')),
      )

-- An export writes only where there was nothing: no file that was there before has changed, whatever
-- fails. If it succeeds, the name was a plain file name, both destinations were free, and they hold what
-- the private and the public key file hold.
pub export_key_pair-IsExported :
    (os : ℕ → Option Failure) (is_dir : Bool) (private_path public_path output_dir file_name : Text)
    (d : Disk)
    → IsExported os private_path public_path output_dir file_name d
        (export_key_pair os is_dir private_path public_path output_dir file_name d)
unfolding export_key_pair
export_key_pair-IsExported os is_dir private_path public_path output_dir file_name d =
    let a : Text = join_path output_dir file_name in
    let b : Text = join_path output_dir (file_name ++ codes ".pub") in
    let message : Text = codes "destination already exists: " ++ file_name in
    let Goal = IsExported os private_path public_path output_dir file_name d in
    let stop = stopped-IsExported os private_path public_path output_dir file_name d in
    let write : Io (Unit {0}) = export_to os private_path public_path a b in
    let look : Io (Unit {0}) = λ d. and_then (vacant a b message d) (λ _. write) in
    let unavailable : Text = codes "Downloads directory is unavailable" in
    and_then_rule Goal (d, validate_export_file_name file_name)
      (λ _ d. and_then (d, guard is_dir unavailable) (λ _. look)) (λ e k. stop e)
      (λ u named.
        and_then_rule Goal (d, guard is_dir unavailable) (λ _. look) (λ e k. stop e)
          (λ v k.
            and_then_rule Goal (vacant a b message d) (λ _. write) (λ e l. stop e)
              (λ w l.
                let (free, free') = vacant-free a b message d l in
                written-IsExported os private_path public_path output_dir file_name d
                  (validate_export_file_name-IsFileName file_name named).0 free free')))
