-- ===== src/Mosh/Address.antt =====
-- The UDP port range and the server address of leantty_ssh/src/lib.rs.
use leantty.Prelude.{
  Result-cases, ℕ, ◌+◌, ◌≤◌, true, false, List, [], ◌∷◌, ◌≡◌, ◌↔◌, sym, ◌∙◌, ◌⊎◌, inl, inr, arith,
  Option, none, some, if◌then◌else◌, Bool-cases, Text, split, split_inclusive, ok, err,
}
use leantty.Mosh.{
  MoshUdpPortRange, contains_port, mosh_udp_port_range, validate_mosh_server_port, is_record,
  record_line, record_address, ipv4_lines, Ipv4Addr, mosh_server_ipv4,
}

-- Two zero bounds ask for no range; other bounds are accepted exactly if they lie between 1 and 65535
-- in order; and a server's port passes exactly if no range was asked for or it lies in the range.
mosh_udp_port_range_lem :
    (start end port : ℕ)
    → ((mosh_udp_port_range start end ≡ ok none) ↔ ((start ≡ 0) × (end ≡ 0)))
      × ((r : MoshUdpPortRange)
          → (mosh_udp_port_range start end ≡ ok (some r)) ↔ (
              (1 ≤ start)
              × (start ≤ end)
              × (end ≤ 65535)
              × (r ≡ record { start = start; end = end })))
      × ((range : Option MoshUdpPortRange)
          → mosh_udp_port_range start end ≡ ok range
          → (validate_mosh_server_port port range ≡ ok tt)
            ↔ ((end ≡ 0) ⊎ (start ≤ port) × (port ≤ end)))
unfolding mosh_udp_port_range validate_mosh_server_port contains_port
mosh_udp_port_range_lem start end port = (ground arith, λ r. ground arith, λ range h. ground arith)

-- How many lines are records of the server's address.
abbrev pub records : List (List ℕ) → ℕ
records [] = 0
records (l ∷ ls) = (if is_record l then 1 else 0) + records ls

abbrev given : Option Ipv4Addr → ℕ
given none = 0
given (some a) = 1

record_address-given :
    (fields : List Text) (address : Option Ipv4Addr) {a : Ipv4Addr}
    → record_address fields address ≡ ok a
    → given address ≡ 0
unfolding record_address
record_address-given fields address h = ground arith

module _ (l : List ℕ) (ls : List (List ℕ)) (address : Option Ipv4Addr) where
  ipv4_lines_skip : is_record l ≡ false → ipv4_lines (l ∷ ls) address ≡ ipv4_lines ls address
  unfolding ipv4_lines
  ipv4_lines_skip h = ground arith

  ipv4_lines_take :
      (b : Ipv4Addr)
      → is_record l ≡ true
      → record_address (split b' ' (record_line l)) address ≡ ok b
      → ipv4_lines (l ∷ ls) address ≡ ipv4_lines ls (some b)
  unfolding ipv4_lines
  ipv4_lines_take b h e = ground arith

  ipv4_lines_fail :
      (t : Text)
      → is_record l ≡ true
      → record_address (split b' ' (record_line l)) address ≡ err t
      → ipv4_lines (l ∷ ls) address ≡ err t
  unfolding ipv4_lines
  ipv4_lines_fail t h e = ground arith

ipv4_lines-records :
    (ls : List (List ℕ)) (address : Option Ipv4Addr) (a : Ipv4Addr)
    → ipv4_lines ls address ≡ ok a
    → records ls + given address ≡ 1
ipv4_lines-records [] none a h = absurd (unfold ipv4_lines in cc)
ipv4_lines-records [] (some b) a h = omega arith
ipv4_lines-records (l ∷ ls) address a h = elim (Bool-cases (is_record l)) [
  | inr other ↦ rw other (
      omega (arith, ipv4_lines-records ls address a (sym (ipv4_lines_skip l ls address other) ∙ h)))
  | inl found ↦ elim (Result-cases (record_address (split b' ' (record_line l)) address)) [
    | inr (t, e) ↦ absurd (cc (ipv4_lines_fail l ls address t found e))
    | inl (b, e) ↦
        let later =
          ipv4_lines-records ls (some b) a (sym (ipv4_lines_take l ls address b found e) ∙ h) in
        rw found (omega (arith, record_address-given (split b' ' (record_line l)) address e))
  ]
]

-- An address is taken only from an output in which exactly one line is a record of it.
pub mosh_server_ipv4-records :
    (output : List ℕ) {a : Ipv4Addr}
    → mosh_server_ipv4 output ≡ ok a
    → records (split_inclusive b'\n' output) ≡ 1
unfolding mosh_server_ipv4
mosh_server_ipv4-records output {a} h =
    omega (arith, ipv4_lines-records (split_inclusive b'\n' output) none a h)
