-- ===== src/Keys/Generated.antt =====
-- `generate_key_pair` of leantty_ssh/leantty-ssh-core/src/keygen.rs as a whole.
use leantty.Prelude.{ℕ, ◌++◌, Option, none, some, ◌≡◌, refl, sym, ◌∙◌, Text, codes, Result, ok, err}
use leantty.Keys.Disk.{utf8, Disk, Failure, Io, and_then, pure, label, touch}
use leantty.Keys.Frame.{and_then_rule, touch-Keeps}
use leantty.Keys.Crate.{KeyCrate}
use leantty.Keys.Pairs.{
  vacant, KeyGenResult, chosen_name, new_key, stored_text, write_pair, priv_path_of, pub_path_of,
  generate_key_pair,
}
use leantty.Keys.Fresh.{Spares, vacant-free, free-ne, write_pair-Keeps}
use leantty.Keys.Made.{paths-ne, write_pair-ok}

module _ (crate : KeyCrate) (algorithm output_dir file_name passphrase comment : Text)
    (d : Disk) where
  open crate use {PrivateKey, fingerprint, public_key, public_to_string}

  -- The pair that a result names.
  abbrev pub IsPair : KeyGenResult → Disk → Type 0
  IsPair result d' =
      (name : Text) × (chosen_name algorithm file_name ≡ ok name)
      × (result.private_path ≡ priv_path_of output_dir name)
      × (result.public_path ≡ pub_path_of output_dir name)
      × (d.files (priv_path_of output_dir name) ≡ none)
      × (d.files (pub_path_of output_dir name) ≡ none)
      × (keypair : PrivateKey) × ((new_key crate algorithm comment d).1 ≡ ok keypair)
      × (pem : Text) × (stored_text crate keypair passphrase ≡ ok pem)
      × (result.fingerprint ≡ fingerprint keypair)
      × (d'.files (priv_path_of output_dir name) ≡ some (utf8 pem))
      × (d'.files (pub_path_of output_dir name)
          ≡ some (utf8 (public_to_string (public_key keypair))))

  abbrev MakesPair : Disk × Result KeyGenResult Text → Type 0
  MakesPair (d', ok result) = IsPair result d'
  MakesPair (d', err e) = Unit

  abbrev pub IsGenerated : Disk × Result KeyGenResult Text → Type 0
  IsGenerated r = Spares d r × MakesPair r

  stopped-IsGenerated :
      (d' : Disk) (e : Text) → ((q : Text) → d'.files q ≡ d.files q) → IsGenerated (d', err e)
  stopped-IsGenerated d' e same = (λ q c was. same q ∙ was, tt)

  module _ (os : ℕ → Option Failure) (name : Text)
      (named : chosen_name algorithm file_name ≡ ok name) (keypair : PrivateKey)
      (made : (new_key crate algorithm comment d).1 ≡ ok keypair) (pem : Text)
      (stored : stored_text crate keypair passphrase ≡ ok pem) where
    abbrev result : KeyGenResult
    result = record {
      private_path = priv_path_of output_dir name;
      public_path = pub_path_of output_dir name;
      fingerprint = fingerprint keypair;
    }

    -- The files are written where there were none.
    written-IsGenerated :
        (d' : Disk)
        → ((q : Text) → d'.files q ≡ d.files q)
        → d.files (priv_path_of output_dir name) ≡ none
        → d.files (pub_path_of output_dir name) ≡ none
        → IsGenerated (
            and_then
              (write_pair os
                (priv_path_of output_dir name)
                (pub_path_of output_dir name)
                pem
                (public_to_string (public_key keypair))
                d')
              (λ _. pure (ok result)))
    written-IsGenerated d' same free free' =
        let a : Text = priv_path_of output_dir name in
        let b : Text = pub_path_of output_dir name in
        let pub_text : Text = public_to_string (public_key keypair) in
        let r : Disk × Result (Unit {0}) Text = write_pair os a b pem pub_text d' in
        let spares : Spares d r = λ q c was.
          write_pair-Keeps os q a b (free-ne d a q c free was) (free-ne d b q c free' was) pem
            pub_text d'
          ∙ same q
          ∙ was in
        and_then_rule IsGenerated r (λ _. pure (ok result)) (λ e k. (spares, tt))
          (λ u k.
            let (held, held') = write_pair-ok os a b pem pub_text d' (paths-ne output_dir name) k in
            (
              spares,
              (name, named, refl, refl, free, free', keypair, made, pem, stored, refl, held, held'),
            ))

-- A key pair is only ever made where there was nothing: no file that was there before has changed,
-- whatever fails. If the call succeeds, the two paths that it returns are those of the name that was
-- chosen, both were free, and they hold the stored text of one key and its public key.
pub generate_key_pair-IsGenerated :
    (crate : KeyCrate) (os : ℕ → Option Failure)
    (algorithm output_dir file_name passphrase comment : Text) (d : Disk)
    → IsGenerated crate algorithm output_dir file_name passphrase comment d
        (generate_key_pair crate os algorithm output_dir file_name passphrase comment d)
unfolding generate_key_pair
generate_key_pair-IsGenerated crate os algorithm output_dir file_name passphrase comment d =
    let Goal = IsGenerated crate algorithm output_dir file_name passphrase comment d in
    let make : Text → crate.PrivateKey → Text → Io KeyGenResult = λ name keypair pem d.
      and_then
        (write_pair os (priv_path_of output_dir name) (pub_path_of output_dir name) pem
          (crate.public_to_string (crate.public_key keypair)) d)
        (λ _. pure (
          ok (record {
            private_path = priv_path_of output_dir name;
            public_path = pub_path_of output_dir name;
            fingerprint = crate.fingerprint keypair;
          }))) in
    let guard : Text → Io (Unit {0}) = λ name.
      vacant (priv_path_of output_dir name) (pub_path_of output_dir name)
        (codes "key already exists: " ++ name) in
    let tail : Text → crate.PrivateKey → Text → Io KeyGenResult = λ name keypair pem d.
      and_then (label (codes "mkdir failed: ") (touch os) d)
        (λ _ d. and_then (guard name d) (λ _. make name keypair pem)) in
    let stop = λ (d' : Disk) (e : Text) (same : (q : Text) → d'.files q ≡ d.files q).
      stopped-IsGenerated crate algorithm output_dir file_name passphrase comment d d' e same in
    and_then_rule Goal (d, chosen_name algorithm file_name)
      (λ name d. and_then (new_key crate algorithm comment d) (λ keypair d.
        and_then (d, stored_text crate keypair passphrase) (λ pem. tail name keypair pem)))
      (λ e k. stop d e (λ q. refl))
      (λ name named.
        and_then_rule Goal (new_key crate algorithm comment d)
          (λ keypair d.
            and_then (d, stored_text crate keypair passphrase) (λ pem. tail name keypair pem))
          (λ e k. stop d e (λ q. refl))
          (λ keypair k.
            and_then_rule Goal (d, stored_text crate keypair passphrase)
              (λ pem. tail name keypair pem) (λ e k. stop d e (λ q. refl))
              (λ pem stored.
                let t : Disk × Result (Unit {0}) Text =
                  label (codes "mkdir failed: ") (touch os) d in
                let same : (q : Text) → t.0.files q ≡ d.files q = λ q. touch-Keeps q os d in
                and_then_rule Goal t (λ _ d. and_then (guard name d) (λ _. make name keypair pem))
                  (λ e k. stop t.0 e same)
                  (λ u m.
                    and_then_rule Goal (guard name t.0) (λ _. make name keypair pem)
                      (λ e l. stop t.0 e same)
                      (λ v l.
                        let (free, free') =
                          vacant-free (priv_path_of output_dir name) (pub_path_of output_dir name)
                            (codes "key already exists: " ++ name) t.0 l in
                        written-IsGenerated crate algorithm output_dir file_name passphrase comment
                          d os name named keypair k pem stored t.0 same (sym (same _) ∙ free)
                          (sym (same _) ∙ free'))))))
