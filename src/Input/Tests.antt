-- ===== src/Input/Tests.antt =====
-- A short input, with two terminal sizes in the queue.
use leantty.Prelude.{ℕ, List, [], ◌∷◌, Option, none, some, ◌≡◌, refl, Text, codes, ok}
use leantty.Input.{chunk, size, serve_resizes, write_chunks, send_scheduled_input}
use leantty.Input.Chunks.{Delivers, send_scheduled_input-Delivers}

abbrev takes_chunks : ℕ → List ℕ → Option Text
takes_chunks i c = none

abbrev refuses_sizes : ℕ × ℕ → Option Text
refuses_sizes s = some (codes "closed")

abbrev two_sizes : ℕ → List (Option ((ℕ × ℕ) × List (ℕ × ℕ)))
two_sizes i = some ((80, 24), ((100, 30) ∷ [])) ∷ none ∷ []

short_input :
    send_scheduled_input takes_chunks refuses_sizes two_sizes (codes "ls")
    ≡ some (record {
      sent = size (100, 30) ∷ chunk (codes "ls") ∷ [];
      result = ok tt;
      resize_errors = codes "closed" ∷ [];
    })
unfolding send_scheduled_input write_chunks serve_resizes
short_input = refl

send_scheduled_input-Delivers_example :
    Delivers takes_chunks refuses_sizes 0
      (codes "ls")
      (send_scheduled_input takes_chunks refuses_sizes two_sizes (codes "ls"))
send_scheduled_input-Delivers_example =
    send_scheduled_input-Delivers {E = Text} takes_chunks refuses_sizes two_sizes (codes "ls")
