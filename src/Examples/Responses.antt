-- ===== src/Examples/Responses.antt =====
-- Responses of services.
use ex2_services.Base.{
  ℕ, ◌≡◌, refl, ap, arith, Bool, true, false, Option, none, some, List, [], ◌∷◌, ◌++◌, ltb, length,
}
use ex2_services.Response.{Response, Queue, Csp}
use ex2_services.Response.Laws.{Fifo, Wire}
use ex2_services.Csp.Packet.{Packet}
use ex2_services.Examples.Toys.{packet_of}

-- A queue of three, and a network that keeps what it sends and refuses the packet behind the first.
abbrev put_back : Bool → Response → List Response → Bool × List Response
put_back true r q = (true, q ++ r ∷ [])
put_back false r q = (false, q)

abbrev take_front : List Response → Option Response × List Response
take_front [] = (none, [])
take_front (r ∷ q) = (some r, q)

abbrev three : Queue (List Response)
three = record {
  send_to_back = λ r q. put_back (ltb (length q) 3) r q;
  receive = take_front;
  create = some [];
}

put_back_sent :
    (b : Bool) (r : Response) (q : List Response)
    → (put_back b r q).0 ≡ true
    → (put_back b r q).1 ≡ q ++ r ∷ []
put_back_sent true r q h = refl
put_back_sent false r q h = absurd (ground arith)

put_back_full :
    (b : Bool) (r : Response) (q : List Response)
    → (put_back b r q).0 ≡ false
    → (put_back b r q).1 ≡ q
put_back_full true r q h = absurd (ground arith)
put_back_full false r q h = refl

take_front_empty : (q : List Response) → (take_front q).0 ≡ none → (take_front q).1 ≡ q
take_front_empty [] h = refl
take_front_empty (r ∷ q) h = absurd (ground arith)

the_first : {a b : Response} → ◌≡◌ {A = Option Response} (some a) (some b) → a ≡ b
the_first {a} same = ap (λ o. elim o [ none ↦ a | some x ↦ x ]) same

take_front_received :
    (r : Response) (q : List Response) → (take_front q).0 ≡ some r → q ≡ r ∷ (take_front q).1
take_front_received r [] h = absurd (ground arith)
take_front_received r (x ∷ q) h = ap (λ y. y ∷ q) (the_first h)

three-Fifo : Fifo three
three-Fifo = record {
  items = λ q. q;
  sent = λ r q h. put_back_sent (ltb (length q) 3) r q h;
  full = λ r q h. put_back_full (ltb (length q) 3) r q h;
  empty = λ q h. take_front_empty q h;
  received = λ r q h. take_front_received r q h;
}

abbrev send_one : Packet → List Packet → Bool × List Packet
send_one p [] = (true, p ∷ [])
send_one p (q ∷ w) = (false, q ∷ w)

abbrev csp : Csp (List Packet)
csp = record {
  connect = λ dest dport w. (some dest, w);
  send = λ conn p w. send_one p w;
  buffer_free = λ b w. w;
  close = λ conn w. w;
}

send_one_sent :
    (p : Packet) (w : List Packet) → (send_one p w).0 ≡ true → (send_one p w).1 ≡ w ++ p ∷ []
send_one_sent p [] h = refl
send_one_sent p (q ∷ w) h = absurd (ground arith)

send_one_failed : (p : Packet) (w : List Packet) → (send_one p w).0 ≡ false → (send_one p w).1 ≡ w
send_one_failed p [] h = absurd (ground arith)
send_one_failed p (q ∷ w) h = refl

csp-Wire : Wire csp
csp-Wire = record {
  log = λ w. w;
  connect_log = λ dest dport w. refl;
  sent_log = λ conn p w h. send_one_sent p w h;
  failed_log = λ conn p w h. send_one_failed p w h;
  free_log = λ b w. refl;
  close_log = λ conn w. refl;
}

abbrev response : ℕ → Response
response n = record { packet = packet_of (n ∷ []); src = 1; dport = 10 }
