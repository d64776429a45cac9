-- ===== src/Node/Peers/Dialing/Marks.antt =====
-- tryMarkDialing and unmarkDialing of node/node.go, and the goroutines that call them.
use magic_tun.Base.{
  ℕ, ◌≡◌, inl, inr, true, false, none, some, List, [], ◌∷◌, arith, if◌then◌else◌, Bool-cases,
  bytes_beq, bytes_beq_iff, bytes_eq, nat_eq, get, put, delete, get-put, get-delete, subst,
}
use magic_tun.Node.{Node}
use magic_tun.Node.Peers.{is_dialing, try_mark_dialing, unmark_dialing}
use magic_tun.Node.Peers.Dialing.{Addr, Dials, marks, IsExclusive}

is_dialing-unmark_dialing :
    (a b : Addr) (dials : List Addr)
    → is_dialing b (unmark_dialing a dials) ≡ (if bytes_beq a b then false else is_dialing b dials)
unfolding is_dialing unmark_dialing
is_dialing-unmark_dialing a b [] = ground arith
is_dialing-unmark_dialing a b (x ∷ dials) = ground (
  arith,
  bytes_beq_iff a b,
  bytes_beq_iff x a,
  bytes_beq_iff x b,
  is_dialing-unmark_dialing a b dials,
)

try_mark_new :
    (a : Addr) (dials marks : List Addr)
    → try_mark_dialing a dials ≡ (true, marks)
    → (is_dialing a dials ≡ false) × (marks ≡ a ∷ dials)
unfolding try_mark_dialing
try_mark_new a dials marks h = ground (arith, h)

try_mark_old :
    (a : Addr) (dials marks : List Addr) → try_mark_dialing a dials ≡ (false, marks) → marks ≡ dials
unfolding try_mark_dialing
try_mark_old a dials marks h = ground (arith, h)

pub begins-IsExclusive :
    (s : Dials) (i : ℕ) (a : Addr) (n : Node)
    → get i s.dialers ≡ none
    → try_mark_dialing a (marks s) ≡ (true, n.reconnecting)
    → IsExclusive s
    → IsExclusive (record { node = n; dialers = put i a s.dialers })
unfolding is_dialing
begins-IsExclusive s i a n idle mark v =
    let (new, same) = try_mark_new a (marks s) n.reconnecting mark in
    record {
      alone = λ j k b p q. ground (
        arith,
        get-put i j a s.dialers,
        get-put i k a s.dialers,
        v.alone j k b,
        v.marked j b,
        v.marked k b,
      );
      marked = λ j b p.
          rw same (ground (arith, get-put i j a s.dialers, v.marked j b, bytes_beq_iff a b));
      freed = λ b h. elim (Bool-cases (bytes_beq a b)) [
        | inl own ↦ (i, ground (arith, get-put i i a s.dialers, bytes_beq_iff a b))
        | inr other ↦
            let still = subst (λ (xs : List Addr). is_dialing b xs ≡ true) same h in
            let (j, q) = v.freed b (ground arith) in (j, ground (arith, get-put i j a s.dialers))
      ];
    }

pub ends-IsExclusive :
    (s : Dials) (i : ℕ) (a : Addr) (n : Node)
    → get i s.dialers ≡ some a
    → n.reconnecting ≡ unmark_dialing a (marks s)
    → IsExclusive s
    → IsExclusive (record { node = n; dialers = delete i s.dialers })
ends-IsExclusive s i a n held same v = record {
  alone = λ j k b p q.
      ground (arith, get-delete i j s.dialers, get-delete i k s.dialers, v.alone j k b);
  marked = λ j b p. rw same (
      ground (
        arith,
        get-delete i j s.dialers,
        v.marked j b,
        v.alone i j a,
        bytes_beq_iff a b,
        is_dialing-unmark_dialing a b (marks s),
      ));
  freed = λ b h.
      let left : is_dialing b (unmark_dialing a (marks s)) ≡ true = rw (← same) h in
      let still : is_dialing b (marks s) ≡ true =
        ground (arith, is_dialing-unmark_dialing a b (marks s)) in
      let (j, q) = v.freed b still in
      (
        j,
        ground (
          arith,
          get-delete i j s.dialers,
          bytes_beq_iff a b,
          is_dialing-unmark_dialing a b (marks s),
          held,
        ),
      );
}

pub same-IsExclusive :
    (s : Dials) (n : Node)
    → n.reconnecting ≡ marks s
    → IsExclusive s
    → IsExclusive (record s { node = n })
same-IsExclusive s n same v = record {
  alone = v.alone;
  marked = λ i a p. rw same (v.marked i a p);
  freed = λ a h. v.freed a (rw (← same) h);
}
