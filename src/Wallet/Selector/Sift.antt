-- ===== src/Wallet/Selector/Sift.antt =====
-- masswallet/utxo_selector.go: `adjust` never reads out of range, it ends, and it restores the order
-- of the heap.
use mass_net_wallet.Prelude.{
  ℕ, zero, suc, ◌+◌, ◌-◌, ◌*◌, ◌/◌, ◌≤◌, ◌<◌, ◌≡◌, ◌≢◌, ◌⊎◌, inl, inr, refl, ◌∙◌, Bool, List, arith,
  ltb, if◌then◌else◌, length, length-set, set, count, Bool-cases,
}
use mass_net_wallet.Prelude.Exec.{ok, Returns, returns, Returns-and_then, Returns-map, Returns-if}
use mass_net_wallet.Wallet.Selector.{load, smaller_child, adjust_loop, adjust, adjust_down}
use mass_net_wallet.Wallet.Selector.Cells.{load-ok, count-swap, key, load-key, key-set, key-swap}

abbrev pub parent : ℕ → ℕ
parent c = (c - 1) / 2

module _ {C : Type 0} (amount : C → ℕ) where
  -- `c` is an entry under the entry `i`
  abbrev pub IsEdge : List C → ℕ → ℕ → Type 0
  IsEdge a i c = (parent c ≡ i) × 0 < c × c < length a

  -- From `lo` on, no entry has a smaller amount than the one above it.
  abbrev pub IsHeapFrom : ℕ → List C → Type 0
  IsHeapFrom lo a = (i c : ℕ) → IsEdge a i c → lo ≤ i → key amount a i ≤ key amount a c

  -- The same but for the entries under `cur`, which are in order with the one above `cur`.
  record IsHeapBut (lo : ℕ) (a : List C) (cur : ℕ) : Type 0 where
    over :
        (c : ℕ)
        → IsEdge a cur c
        → 0 < cur
        → lo ≤ parent cur
        → key amount a (parent cur) ≤ key amount a c
    settled : (i c : ℕ) → IsEdge a i c → lo ≤ i → i ≢ cur → key amount a i ≤ key amount a c

  -- `b` has the entries of `a`, in the order of a heap from `lo`.
  pub record Sifted (lo : ℕ) (a b : List C) : Type 0 where
    pub heap : IsHeapFrom lo b
    pub size : length b ≡ length a
    pub same : (p : C → Bool) → count p b ≡ count p a

  record IsLeastChild (a : List C) (i m : ℕ) : Type 0 where
    edge : IsEdge a i m
    least : (c : ℕ) → IsEdge a i c → key amount a m ≤ key amount a c

  -- An entry has at most two under it.
  children : (a : List C) (i c : ℕ) → IsEdge a i c → (c ≡ 2 * i + 1) ⊎ (c ≡ 2 * i + 1 + 1)
  children a i c g = ground arith

  right_or_left :
      (a : List C) (i : ℕ) (x y : C)
      → 2 * i + 2 < length a
      → amount x ≡ key amount a (2 * i + 1)
      → amount y ≡ key amount a (2 * i + 1 + 1)
      → IsLeastChild a i (if ltb (amount y) (amount x) then 2 * i + 1 + 1 else 2 * i + 1)
  right_or_left a i x y h e f = elim (Bool-cases (ltb (amount y) (amount x))) [
    | inl t ↦ rw t (record {
      edge = (omega arith, omega arith, omega arith);
      least = λ c g. elim (children a i c g) [
        | inl u ↦ rw u (ground arith)
        | inr u ↦ rw u (omega arith)
      ];
    })
    | inr t ↦ rw t (record {
      edge = (omega arith, omega arith, omega arith);
      least = λ c g. elim (children a i c g) [
        | inl u ↦ rw u (omega arith)
        | inr u ↦ rw u (ground arith)
      ];
    })
  ]

  smaller_child-IsLeastChild :
      (a : List C) (i : ℕ)
      → 2 * i + 1 < length a
      → Returns (IsLeastChild a i) (smaller_child amount (length a) a (2 * i + 1))
  unfolding smaller_child
  smaller_child-IsLeastChild a i h =
      let left = 2 * i + 1 in
      Returns-if (ltb (left + 1) (length a))
        (λ both.
          let (x, e) = load-ok a left h in
          let (y, f) = load-ok a (left + 1) (ground arith) in
          rw (e, f)
            (returns (
              right_or_left a i x y (ground arith) (load-key amount a left x e)
                (load-key amount a (left + 1) y f))))
        (λ one. returns (record {
          edge = (omega arith, omega arith, h);
          least = λ c g.
              let only : c ≡ left = ground (arith, children a i c g) in rw only (omega arith);
        }))

  sink-IsHeapBut :
      (lo : ℕ) (a : List C) (i m : ℕ) (x y : C)
      → IsHeapBut lo a i
      → IsLeastChild a i m
      → load a i ≡ ok x
      → load a m ≡ ok y
      → amount y < amount x
      → IsHeapBut lo (set (set a i y) m x) m
  sink-IsHeapBut lo a i m x y v s e f below =
      let size : length (set (set a i y) m x) ≡ length a =
        omega (arith, length-set (set a i y) m x, length-set a i y) in
      let now = key-swap amount a i m x y (omega (arith, s.edge)) (s.edge.2) e f in
      let kx = load-key amount a i x e in
      let ky = load-key amount a m y f in
      record {
        over = λ c g p q. ground (arith, now c, now (parent m), v.settled m c, s.edge);
        settled =
            λ j c g q t. ground (arith, now c, now j, v.settled j c, v.over m, s.least c, s.edge);
      }

  -- Where the entry is in order with those under it, all are.
  settles :
      (lo : ℕ) (a : List C) (cur : ℕ)
      → IsHeapBut lo a cur
      → ((c : ℕ) → IsEdge a cur c → key amount a cur ≤ key amount a c)
      → Sifted lo a a
  settles lo a cur v h = record {
    heap = λ i c g q. ground (arith, v.settled i c, h c);
    size = refl;
    same = λ p. refl;
  }

  Sifted-swap :
      {lo i m : ℕ} {a b : List C} (x y : C)
      → i ≢ m
      → load a i ≡ ok x
      → load a m ≡ ok y
      → Sifted lo (set (set a i y) m x) b
      → Sifted lo a b
  Sifted-swap {lo} {i} {m} {a} {b} x y h e f s = record {
    heap = s.heap;
    size = omega (arith, s.size, length-set (set a i y) m x, length-set a i y);
    same = λ p. omega (arith, s.same p, count-swap p a i m x y h e f);
  }

  adjust_loop-Sifted :
      (fuel lo k : ℕ) (a : List C) (cur : ℕ)
      → length a ≡ k
      → k - cur < fuel
      → IsHeapBut lo a cur
      → Returns (Sifted lo a) (adjust_loop amount fuel k cur a)
  unfolding adjust_loop
  adjust_loop-Sifted zero lo k a cur z f v = absurd (omega arith)
  adjust_loop-Sifted (suc fuel) lo k a cur z f v =
      Returns-if (ltb cur (k / 2))
        (λ inner.
          let narrow : 2 * cur + 1 < length a = ground arith in
          let picked : Returns (IsLeastChild a cur) (smaller_child amount k a (2 * cur + 1)) =
            rw (← z) (smaller_child-IsLeastChild a cur narrow) in
          Returns-and_then picked λ child s.
            let (x, e) = load-ok a cur (omega arith) in
            let (y, g) = load-ok a child s.edge.2 in
            let apart : cur ≢ child = λ t. omega (arith, s.edge) in
            let b = set (set a cur y) child x in
            let size : length b ≡ length a =
              omega (arith, length-set (set a cur y) child x, length-set a cur y) in
            rw (e, g)
              (Returns-if (ltb (amount y) (amount x))
                (λ below.
                  Returns-map
                    (adjust_loop-Sifted fuel lo k b child (omega arith) (omega (arith, s.edge))
                      (sink-IsHeapBut lo a cur child x y v s e g (ground arith)))
                    λ c t. Sifted-swap x y apart e g t)
                (λ settled.
                  let kx = load-key amount a cur x e in
                  let ky = load-key amount a child y g in
                  returns (settles lo a cur v (λ c g. ground (arith, s.least c))))))
        (λ leaf. returns (settles lo a cur v (λ c g. ground arith)))

  adjust-Sifted :
      (lo k : ℕ) (a : List C) (cur : ℕ)
      → length a ≡ k
      → IsHeapBut lo a cur
      → Returns (Sifted lo a) (adjust amount k a cur)
  unfolding adjust
  adjust-Sifted lo k a cur z v = adjust_loop-Sifted (suc k) lo k a cur z (omega arith) v

  Sifted-trans : {lo l : ℕ} {a b c : List C} → Sifted lo a b → Sifted l b c → Sifted l a c
  Sifted-trans s t = record {
    heap = t.heap;
    size = t.size ∙ s.size;
    same = λ p. t.same p ∙ s.same p;
  }

  adjust_down-Sifted :
      (k i : ℕ) (a : List C)
      → length a ≡ k
      → IsHeapFrom i a
      → Returns (Sifted 0 a) (adjust_down amount k i a)
  unfolding adjust_down
  adjust_down-Sifted k zero a z h = returns (record { heap = h; size = refl; same = λ p. refl })
  adjust_down-Sifted k (suc i) a z h =
      Returns-and_then
        (adjust-Sifted i k a i z (record {
          over = λ c g p q. absurd (omega arith);
          settled = λ j c g q t. h j c g (omega arith);
        }))
        λ b s. Returns-map (adjust_down-Sifted k i b (s.size ∙ z) s.heap) λ c t. Sifted-trans s t

  -- All that submit does when the base has just become full.
  pub adjust_down-heap :
      (k : ℕ) (a : List C) → length a ≡ k → Returns (Sifted 0 a) (adjust_down amount k (k / 2) a)
  adjust_down-heap k a z = adjust_down-Sifted k (k / 2) a z λ i c g q. absurd (omega arith)

  -- A new entry in place of the root.
  pub adjust-root :
      (k : ℕ) (a : List C) (v : C)
      → length a ≡ k
      → IsHeapFrom 0 a
      → Returns (Sifted 0 (set a 0 v)) (adjust amount k (set a 0 v) 0)
  adjust-root k a v z h = adjust-Sifted 0 k (set a 0 v) 0 (length-set a 0 v ∙ z) (record {
    over = λ c g p q. absurd (omega arith);
    settled = λ j c g q t.
        let size = length-set a 0 v in
        let some_entry : 0 < length a = omega (arith, g) in
        ground (arith, h j c, key-set amount a 0 c v some_entry, key-set amount a 0 j v some_entry);
  })

  root_least_to :
      (a : List C)
      → IsHeapFrom 0 a
      → (depth i : ℕ) → i ≤ depth
      → i < length a
      → key amount a 0 ≤ key amount a i
  root_least_to a h depth zero d p = omega arith
  root_least_to a h zero (suc i) d p = absurd (omega arith)
  root_least_to a h (suc depth) (suc i) d p =
      ground (arith, h (parent (suc i)) (suc i), root_least_to a h depth (parent (suc i)))

  -- No entry of a heap has a smaller amount than its root.
  pub root_least :
      (a : List C) (i : ℕ) → IsHeapFrom 0 a → i < length a → key amount a 0 ≤ key amount a i
  root_least a i h p = root_least_to a h i i (omega arith) p
