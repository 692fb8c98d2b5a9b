-- ===== src/Stack/Contents.antt =====
-- src/comm/struct/stack.c: the stack holds the elements that were pushed and not popped, in their order.
use jsonv.Base.{
  ℕ, zero, suc, ◌+◌, ◌-◌, ◌*◌, ◌%◌, ◌^◌, ◌≤◌, ◌<◌, ◌≡◌, ◌∙◌, refl, sym, ap, ◌⊎◌, Bool, ltb, true,
  false, some, List, [], ◌∷◌, ◌++◌, ◌==◌, leb, length, get_elem?, set, take, replicate, arith, inl,
  inr, Bool-cases, length-set, length-append, length-replicate,
}
use jsonv.Stack.{
  Stack, Pushed, pushed, null, int_overflow, top_max, stack_grow, write_top, stack_push, stack_pop,
}

module _ {ℓ} {A : Type ℓ} where
  -- The elements, the bottom first.
  abbrev pub contents : Stack A → List A
  contents s = take s.count s.data_slots

  pub record IsStack (s : Stack A) : Type ℓ where
    pub size : length s.data_slots ≡ s.capacity
    pub bound : s.count ≤ s.capacity
    pub room : 0 < s.capacity

  take-set :
      (n : ℕ) (xs : List A) (x : A)
      → n < length xs
      → take (suc n) (set xs n x) ≡ take n xs ++ (x ∷ [])
  take-set zero [] x h = absurd (omega arith)
  take-set zero (y ∷ xs) x h = refl
  take-set (suc n) [] x h = absurd (omega arith)
  take-set (suc n) (y ∷ xs) x h = ap (◌∷◌ y) (take-set n xs x (omega arith))

  take-all : (n : ℕ) (xs ys : List A) → length xs ≡ n → take n (xs ++ ys) ≡ xs
  take-all zero [] ys h = refl
  take-all (suc n) [] ys h = absurd (omega arith)
  take-all zero (x ∷ xs) ys h = absurd (omega arith)
  take-all (suc n) (x ∷ xs) ys h = ap (◌∷◌ x) (take-all n xs ys (omega arith))

  take-len : (n : ℕ) (xs : List A) → length xs ≡ n → take n xs ≡ xs
  take-len zero [] h = refl
  take-len (suc n) [] h = absurd (omega arith)
  take-len zero (x ∷ xs) h = absurd (omega arith)
  take-len (suc n) (x ∷ xs) h = ap (◌∷◌ x) (take-len n xs (omega arith))

  write_top-contents :
      (elem : A) (s : Stack A)
      → IsStack s
      → s.count < s.capacity
      → IsStack (write_top elem s) × (contents (write_top elem s) ≡ contents s ++ (elem ∷ []))
  write_top-contents elem s inv h = (
    record {
      size = length-set s.data_slots s.count elem ∙ inv.size;
      bound = omega arith;
      room = inv.room;
    },
    ap (λ (k : ℕ). take k (set s.data_slots s.count elem)) {x = s.count + 1} {y = suc s.count}
          (omega arith)
        ∙ take-set s.count s.data_slots elem (omega (arith, inv.size)),
  )

  grown : A → Stack A → Stack A
  grown zeros s = record s {
    extra = true;
    data_slots =
        take s.capacity s.data_slots ++ replicate (s.capacity * 2 % 2 ^ 64 - s.capacity) zeros;
    capacity = s.capacity * 2 % 2 ^ 64;
  }

  grown-contents :
      (zeros : A) (s : Stack A)
      → IsStack s
      → s.count ≡ s.capacity
      → s.capacity < 2 ^ 63
      → IsStack (grown zeros s)
        × (contents (grown zeros s) ≡ contents s)
        × (s.count < (grown zeros s).capacity)
  unfolding grown
  grown-contents zeros s inv full small =
      let whole = take-len s.capacity s.data_slots inv.size in
      let more = replicate (s.capacity * 2 % 2 ^ 64 - s.capacity) zeros in
      (
        record {
          size = rw whole (
              omega (
                arith,
                length-append s.data_slots more,
                inv.size,
                inv.room,
                length-replicate (s.capacity * 2 % 2 ^ 64 - s.capacity) zeros,
              ));
          bound = omega (arith, inv.bound);
          room = omega (arith, inv.room);
        },
        rw whole (
            take-all s.count s.data_slots more (inv.size ∙ sym full)
            ∙ sym (take-len s.count s.data_slots (inv.size ∙ sym full))),
        omega (arith, inv.room),
      )

  -- What a push comes to: an overflow, no memory, or the stack with the element on top.
  abbrev pub Pushes : Bool → A → Stack A → Pushed A → Type ℓ
  Pushes ok elem s r =
      ((top_max < s.count) × (r ≡ int_overflow))
      ⊎ ((s.count ≤ top_max) × (ok ≡ false) × (s.count ≡ s.capacity) × (r ≡ null))
      ⊎ ((s.count ≤ top_max)
          × ((t : Stack A) × (r ≡ pushed t) × IsStack t × (contents t ≡ contents s ++ (elem ∷ []))))

  -- On a well-formed stack of less than 2^63 slots: with 2^31 elements on it, a push overflows `top`. With
  -- fewer it puts the element above the others and keeps the stack well formed, or returns NULL, and
  -- that only where the stack is full and has no memory to grow.
  pub stack_push-contents :
      (calloc_succeeds : Bool) (zeros elem : A) (s : Stack A)
      → IsStack s
      → s.capacity < 2 ^ 63
      → Pushes calloc_succeeds elem s (stack_push calloc_succeeds zeros elem s)
  unfolding stack_push stack_grow grown
  stack_push-contents ok zeros elem s inv small = elim (Bool-cases (ltb top_max s.count)) [
    | inl over ↦ inl (ground arith, rw over)
    | inr within ↦ elim (Bool-cases (leb s.capacity s.count)) [
      | inr room ↦
          let (i, e) = write_top-contents elem s inv (ground arith) in
          inr (inr (ground arith, (write_top elem s, rw (within, room), i, e)))
      | inl full ↦
          let same : s.count ≡ s.capacity = ground (arith, inv.bound) in
          elim (Bool-cases ok) [
            | inr failed ↦ inr (inl (ground arith, failed, same, rw (within, full, failed)))
            | inl there ↦
                let (i, e, h) = grown-contents zeros s inv same small in
                let (j, f) = write_top-contents elem (grown zeros s) i h in
                inr (
                  inr (
                    ground arith,
                    (
                      write_top elem (grown zeros s),
                      rw (within, full, there),
                      j,
                      f ∙ ap (λ (xs : List A). xs ++ (elem ∷ [])) e,
                    ),
                  ))
          ]
    ]
  ]

  last_slot :
      (n : ℕ) (xs : List A)
      → n < length xs
      → (x : A) × (get_elem? xs n ≡ some x) × (take (suc n) xs ≡ take n xs ++ (x ∷ []))
  last_slot n [] h = absurd (omega arith)
  last_slot zero (x ∷ xs) h = (x, refl, refl)
  last_slot (suc n) (y ∷ xs) h =
      let (x, e, f) = last_slot n xs (omega arith) in (x, e, ap (◌∷◌ y) f)

  -- A pop on a well-formed stack that is not empty returns the top element and leaves those below.
  pub stack_pop-contents :
      (s : Stack A)
      → IsStack s
      → 0 < s.count
      → (elem : A) × (t : Stack A) × (stack_pop s ≡ some (elem, t))
        × IsStack t
        × (contents s ≡ contents t ++ (elem ∷ []))
  unfolding stack_pop
  stack_pop-contents s inv h =
      let n = s.count - 1 in
      let (x, e, f) = last_slot n s.data_slots (omega (arith, inv.size, inv.bound)) in
      let some_top : (s.count == 0) ≡ false = ground arith in
      (
        x,
        record s { count = n },
        rw (some_top, e) refl,
        record { size = inv.size; bound = omega (arith, inv.bound); room = inv.room },
        ap (λ (k : ℕ). take k s.data_slots) {x = s.count} {y = suc n} (omega arith) ∙ f,
      )
