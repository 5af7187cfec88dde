-- ===== src/Master/Address.antt =====
-- `parseSocketAddress` of src/worker.c, on the bytes of the text.
--
-- `parse_ip_address_ex` is a parameter: the host and the port, or `none` for its error. A result of `none`
-- is `wmError`, which ends the process.
use warrior_man.Prelude.{
  ℕ, zero, suc, ◌+◌, ◌≡◌, refl, Bool, true, false, Option, none, some, List, [], ◌∷◌, ◌++◌, drop,
  ◌==◌, ◌&&◌, leb,
}
use warrior_man.Socket.{Transport, tcp, udp, no_transport}
use warrior_man.Master.Slots.{one_more}

abbrev pub starts_with : List ℕ → List ℕ → Bool
starts_with [] text = true
starts_with (c ∷ cs) [] = false
starts_with (c ∷ cs) (d ∷ ds) = c == d && starts_with cs ds

-- `strstr`, as the index.
pub find_text : List ℕ → List ℕ → Option ℕ
find_text part [] = none
find_text part (c ∷ cs) = elim (starts_with part (c ∷ cs)) [
  | true ↦ some 0
  | false ↦ one_more (find_text part cs)
]

-- `strncmp(a, b, n) == 0`, for texts with no 0 in them.
pub same_start : List ℕ → List ℕ → ℕ → Bool
same_start a b zero = true
same_start [] [] (suc n) = true
same_start [] (d ∷ ds) (suc n) = false
same_start (c ∷ cs) [] (suc n) = false
same_start (c ∷ cs) (d ∷ ds) (suc n) = c == d && same_start cs ds n

-- "://", "tcp" and "udp"
abbrev pub separator : List ℕ
separator = 58 ∷ 47 ∷ 47 ∷ []

abbrev pub tcp_name : List ℕ
tcp_name = 116 ∷ 99 ∷ 112 ∷ []

abbrev pub udp_name : List ℕ
udp_name = 117 ∷ 100 ∷ 112 ∷ []

-- The transport that the first `n` bytes name, or the one that the worker has already.
pub transport_of : List ℕ → ℕ → Transport → Transport
transport_of listen n old = elim (same_start tcp_name listen n) [
  | true ↦ tcp
  | false ↦ elim (same_start udp_name listen n) [ true ↦ udp | false ↦ old ]
]

abbrev pub is_digit : List ℕ → Bool
is_digit [] = false
is_digit (c ∷ cs) = leb 48 c && leb c 57

module _ (parse_ip : List ℕ → Option (List ℕ × ℕ)) where
  pub parse_rest : List ℕ → Transport → Option (Transport × (List ℕ × ℕ))
  parse_rest rest t = elim (is_digit rest) [
    | false ↦ none
    | true ↦ elim (parse_ip rest) [ none ↦ none | some (host, port) ↦ some (t, (host, port)) ]
  ]

  pub parse_socket_address : Transport → List ℕ → Option (Transport × (List ℕ × ℕ))
  parse_socket_address old listen = elim (find_text separator listen) [
    | none ↦ none
    | some n ↦ elim (transport_of listen n old) [
      | no_transport ↦ none
      | tcp ↦ parse_rest (drop (n + 3) listen) tcp
      | udp ↦ parse_rest (drop (n + 3) listen) udp
    ]
  ]

  -- The two transports by their names, whatever the worker had.
  pub named_transport :
      (old : Transport) (rest : List ℕ)
      → (parse_socket_address old (tcp_name ++ (separator ++ rest)) ≡ parse_rest rest tcp)
        × (parse_socket_address old (udp_name ++ (separator ++ rest)) ≡ parse_rest rest udp)
  unfolding parse_socket_address find_text transport_of same_start
  named_transport old rest = (refl, refl)

  -- With no transport before the separator, and with a part of its name only, TCP is taken.
  pub short_name :
      (old : Transport) (rest : List ℕ)
      → (parse_socket_address old (separator ++ rest) ≡ parse_rest rest tcp)
        × (parse_socket_address old (116 ∷ (separator ++ rest)) ≡ parse_rest rest tcp)
  unfolding parse_socket_address find_text transport_of same_start
  short_name old rest = (refl, refl)
