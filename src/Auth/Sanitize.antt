-- ===== src/Auth/Sanitize.antt =====
-- What `sanitize_server_text` of authentication.rs lets through.
use leantty.Prelude.{ℕ, ◌≤◌, [], ◌∷◌, ◌++◌, ◌⊎◌, ◌≡◌, refl, arith, Text, All}
use leantty.Auth.{sanitize_server_text}

-- Newline, carriage return, tab, or no control character.
abbrev pub IsShown : ℕ → Type 0
IsShown c = (c ≡ b'\n') ⊎ (c ≡ b'\r') ⊎ (c ≡ b'\t') ⊎ (0x20 ≤ c) × (c ≤ 0x7e) ⊎ (0xa0 ≤ c)

pub sanitize_server_text-IsShown : (s : Text) → All IsShown (sanitize_server_text s)
unfolding sanitize_server_text
sanitize_server_text-IsShown [] = tt
sanitize_server_text-IsShown (c ∷ s) = ground (arith, sanitize_server_text-IsShown s)

sanitize_server_text-eq_self : (s : Text) → All IsShown s → sanitize_server_text s ≡ s
unfolding sanitize_server_text
sanitize_server_text-eq_self [] h = refl
sanitize_server_text-eq_self (c ∷ s) h = ground (arith, sanitize_server_text-eq_self s h.1)

sanitize_server_text-append :
    (s t : Text) → sanitize_server_text (s ++ t) ≡ sanitize_server_text s ++ sanitize_server_text t
unfolding sanitize_server_text
sanitize_server_text-append [] t = refl
sanitize_server_text-append (c ∷ s) t = ground (arith, sanitize_server_text-append s t)

-- Nothing but shown characters is left of a server's text, a text of shown characters is left as it
-- is, a control character alone is dropped, and a text is sanitised piece by piece.
pub sanitize_server_text_lem :
    (s t : Text) (c : ℕ)
    → All IsShown (sanitize_server_text s)
      × (All IsShown s → sanitize_server_text s ≡ s)
      × (¬ IsShown c → sanitize_server_text (c ∷ []) ≡ [])
      × (sanitize_server_text (s ++ t) ≡ sanitize_server_text s ++ sanitize_server_text t)
sanitize_server_text_lem s t c = (
  sanitize_server_text-IsShown s,
  sanitize_server_text-eq_self s,
  dropped,
  sanitize_server_text-append s t,
)
  where
    dropped : ¬ IsShown c → sanitize_server_text (c ∷ []) ≡ []
    dropped h = unfold sanitize_server_text in ground arith
