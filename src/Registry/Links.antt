-- ===== src/Registry/Links.antt =====
-- A map from numbers to pointers and the objects that they point to, as the managers keep them.
use server.Prelude.{
  ℕ, ◌+◌, ◌≡◌, refl, Option, [], none, some, false, if◌then◌else◌, ◌==◌, bind, arith, inl, inr,
  Bool-cases, Option-cases, ==_self,
}
use server.Prelude.Table.{
  Table, find, insert, erase, assign, IsAbove, IsBelow, find-insert, find-erase, find-assign,
  find_late, insert-IsAbove, erase-IsAbove, insert-IsBelow, erase-IsBelow, assign-IsBelow,
  IsBelow-mono,
}

module _ {O : Type 0} where
  -- The object under a number.
  abbrev pub object_of : Table ℕ → Table O → ℕ → Option O
  object_of servers heap k = bind (find k servers) (λ a. find a heap)

  -- Every number is below `n`, and every number of the map is the pointer to an object.
  pub record IsLinked (n : ℕ) (servers : Table ℕ) (heap : Table O) : Type 0 where
    pub sorted : IsAbove 0 servers
    pub servers_below : IsBelow n servers
    pub heap_below : IsBelow n heap
    pub linked : (k a : ℕ) → find k servers ≡ some a → (a ≡ k) × (o : O) × (find a heap ≡ some o)

  -- An empty map.
  pub empty-IsLinked : (n : ℕ) → IsLinked n [] []
  unfolding find
  empty-IsLinked n = record {
    sorted = tt;
    servers_below = tt;
    heap_below = tt;
    linked = λ k a e. absurd (ground (arith, e));
  }

  -- The entries of the map are not the next number.
  used :
      (n k a : ℕ) (servers : Table ℕ) (heap : Table O)
      → IsLinked n servers heap
      → find k servers ≡ some a
      → (n == a) ≡ false
  used n k a servers heap w e = elim (Bool-cases (n == a)) [
    | inr other ↦ other
    | inl same ↦
        let (alike, o, there) = w.linked k a e in
        let gone = find_late n n heap w.heap_below (omega arith) in
        absurd (ground (arith, there, gone, same))
  ]

  pub insert_lem :
      (n : ℕ) (o : O) (servers : Table ℕ) (heap : Table O)
      → IsLinked n servers heap
      → IsLinked (n + 1) (insert n n servers) (insert n o heap)
        × ((j : ℕ)
            → object_of (insert n n servers) (insert n o heap) j
              ≡ (if n == j then some o else object_of servers heap j))
  insert_lem n o servers heap w =
      let new : find n servers ≡ none = find_late n n servers w.servers_below (omega arith) in
      let new_object : find n heap ≡ none = find_late n n heap w.heap_below (omega arith) in
      let pointer = λ (j : ℕ). find-insert n j n servers new in
      let object = λ (j : ℕ). find-insert n j o heap new_object in
      (
        record {
          sorted = insert-IsAbove 0 n n servers (omega arith) w.sorted;
          servers_below =
              insert-IsBelow (n + 1) n n servers (omega arith)
                (IsBelow-mono n (n + 1) servers (omega arith) w.servers_below);
          heap_below =
              insert-IsBelow (n + 1) n o heap (omega arith)
                (IsBelow-mono n (n + 1) heap (omega arith) w.heap_below);
          linked = λ k a e. elim (Bool-cases (n == k)) [
            | inl same ↦ ground (arith, pointer k, object a, e, same)
            | inr other ↦
                let there : find k servers ≡ some a = ground (arith, pointer k, e, other) in
                let (alike, q, found) = w.linked k a there in
                (alike, q, rw (object a, used n k a servers heap w there) found)
          ];
        },
        λ j. elim (Bool-cases (n == j)) [
          | inl same ↦ rw (pointer j, same, object n, ==_self n) refl
          | inr other ↦ elim (Option-cases (find j servers)) [
            | inl gone ↦ rw (pointer j, other, gone) refl
            | inr (a, there) ↦
                rw (pointer j, other, there, object a, used n j a servers heap w there) refl
          ]
        ],
      )

  pub erase_lem :
      (k n : ℕ) (servers : Table ℕ) (heap : Table O)
      → IsLinked n servers heap
      → IsLinked n (erase k servers) heap
        × ((j : ℕ)
            → object_of (erase k servers) heap j
              ≡ (if k == j then none else object_of servers heap j))
  erase_lem k n servers heap w = (
    record {
      sorted = erase-IsAbove 0 k servers w.sorted;
      servers_below = erase-IsBelow n k servers w.servers_below;
      heap_below = w.heap_below;
      linked = λ j a e. w.linked j a (ground (arith, find-erase 0 k j servers w.sorted, e));
    },
    λ j. elim (Bool-cases (k == j)) [
      | inl same ↦ rw (find-erase 0 k j servers w.sorted, same) refl
      | inr other ↦ rw (find-erase 0 k j servers w.sorted, other) refl
    ],
  )

  pub assign_lem :
      (k n : ℕ) (o : O) (servers : Table ℕ) (heap : Table O)
      → IsLinked n servers heap
      → find k servers ≡ some k
      → IsLinked n servers (assign k o heap)
        × ((j : ℕ)
            → object_of servers (assign k o heap) j
              ≡ (if k == j then some o else object_of servers heap j))
  assign_lem k n o servers heap w h =
      let (alike, old, there) = w.linked k k h in
      let written = λ (j : ℕ). find-assign k j o heap in
      (
        record {
          sorted = w.sorted;
          servers_below = w.servers_below;
          heap_below = assign-IsBelow n k o heap w.heap_below;
          linked = λ j a e.
              let (alike, q, found) = w.linked j a e in
              elim (Bool-cases (k == a)) [
                | inl same ↦ (alike, o, rw (written a, same, there) refl)
                | inr other ↦ (alike, q, rw (written a, other) found)
              ];
        },
        λ j. elim (Bool-cases (k == j)) [
          | inl same ↦
              let e : find j servers ≡ some k = ground (arith, h, same) in
              rw (same, e, written k, ==_self k, there) refl
          | inr other ↦ elim (Option-cases (find j servers)) [
            | inl gone ↦ rw (other, gone) refl
            | inr (a, e) ↦
                let apart : (k == a) ≡ false = ground (arith, (w.linked j a e).0, other) in
                rw (other, e, written a, apart) refl
          ]
        ],
      )
