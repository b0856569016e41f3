-- ===== src/Application/Components.antt =====
-- The list of components of framework/application.go: Register, Find and Remove together.
use mathlib.Core.List.{Memᴰ}
use xgame.Common.{
  ◌≡◌, ◌≢◌, ◌↔◌, refl, sym, ◌∙◌, ap, Option, none, some, String, List, [], ◌∷◌, ◌++◌, string_eq,
  ◌==◌, if◌then◌else◌, arith, eq_iff, Bool-cases, Option-cases, inl, inr,
}
use xgame.Application.{
  Application, Component, is_running, find_in, find, register_all, register, remove_from, remove,
}

module _ {S : Type 0} where
  -- Every component has a name of its own.
  abbrev pub IsFiled : List (Component S) → Type 0
  IsFiled [] = Unit
  IsFiled (c ∷ cs) = ((c.name ≢ "") × (find_in c.name cs ≡ none)) × IsFiled cs

  find_in-append :
      (name : String) (cs : List (Component S)) (c : Component S)
      → find_in name (cs ++ c ∷ []) ≡ elim (find_in name cs) [
        | none ↦ (if c.name == name then some c else none)
        | some d ↦ some d
      ]
  unfolding find_in
  find_in-append name [] c = refl
  find_in-append name (d ∷ cs) c = ground (arith, find_in-append name cs c)

  append-IsFiled :
      (cs : List (Component S)) (c : Component S)
      → IsFiled cs
      → c.name ≢ ""
      → find_in c.name cs ≡ none
      → IsFiled (cs ++ c ∷ [])
  unfolding find_in
  append-IsFiled [] c k named fresh = ((named, refl), tt)
  append-IsFiled (d ∷ cs) c k named fresh = (
    (
      k.0.0,
      ground (arith, find_in-append d.name cs c, k.0.1, eq_iff c.name d.name, eq_iff d.name c.name),
    ),
    append-IsFiled cs c k.1 named (ground arith),
  )

  register_all-IsFiled :
      (cs : List (Option (Component S))) (a : Application S)
      → IsFiled a.components
      → IsFiled (register_all cs a).components
  unfolding register_all find
  register_all-IsFiled [] a k = k
  register_all-IsFiled (none ∷ cs) a k = k
  register_all-IsFiled (some c ∷ cs) a k = elim (Bool-cases (c.name == "")) [
    | inl unnamed ↦ rw unnamed k
    | inr named ↦ elim (Option-cases (find_in c.name a.components)) [
      | inl fresh ↦
          rw (named, fresh)
            (register_all-IsFiled cs (record a { components = a.components ++ c ∷ [] })
              (append-IsFiled a.components c k (λ e. ground (arith, eq_iff c.name "", e)) fresh))
      | inr (old, known) ↦ rw (named, known) k
    ]
  ]

  -- Register of any components, nil ones, unnamed ones and duplicates among them, keeps every component under
  -- a name of its own that is not empty.
  pub register-IsFiled :
      (cs : List (Option (Component S))) (a : Application S)
      → IsFiled a.components
      → IsFiled (register cs a).components
  unfolding register
  register-IsFiled cs a k = elim (Bool-cases (is_running a)) [
    | inl running ↦ rw running k
    | inr idle ↦ rw idle (register_all-IsFiled cs a k)
  ]

  find_in-Memᴰ :
      (name : String) (cs : List (Component S)) (c : Component S)
      → find_in name cs ≡ some c
      → Memᴰ c cs × (c.name ≡ name)
  unfolding find_in
  find_in-Memᴰ name [] c h = cc
  find_in-Memᴰ name (d ∷ cs) c h = elim (Bool-cases (d.name == name)) [
    | inl same ↦
        let q : d ≡ c = ground (arith, rw same at h) in
        (Memᴰ.head (sym q), ap (λ (x : Component S). x.name) (sym q) ∙ (eq_iff d.name name).0 same)
    | inr other ↦
        let (mem, named) = find_in-Memᴰ name cs c (rw other at h) in (Memᴰ.tail mem, named)
  ]

  Memᴰ-find_in :
      (cs : List (Component S)) (c : Component S)
      → IsFiled cs
      → Memᴰ c cs
      → find_in c.name cs ≡ some c
  unfolding find_in
  Memᴰ-find_in [] c k h = elim h [ ]
  Memᴰ-find_in (d ∷ cs) c k (Memᴰ.head q) =
      rw ((eq_iff d.name c.name).1 (ap (λ (x : Component S). x.name) (sym q))) (ap some (sym q))
  Memᴰ-find_in (d ∷ cs) c k (Memᴰ.tail h) = elim (Bool-cases (d.name == c.name)) [
    | inl same ↦ absurd (
        cc (ap (λ n. find_in n cs) ((eq_iff d.name c.name).0 same), k.0.1, Memᴰ-find_in cs c k.1 h))
    | inr other ↦ rw other (Memᴰ-find_in cs c k.1 h)
  ]

  unnamed_absent :
      (cs : List (Component S)) (c : Component S) → IsFiled cs → Memᴰ c cs → c.name ≢ ""
  unnamed_absent [] c k h = elim h [ ]
  unnamed_absent (d ∷ cs) c k (Memᴰ.head q) =
      λ e. k.0.0 (ap (λ (x : Component S). x.name) (sym q) ∙ e)
  unnamed_absent (d ∷ cs) c k (Memᴰ.tail h) = unnamed_absent cs c k.1 h

  -- When every component has a name of its own, Find of a name finds a component exactly when it is
  -- registered and has the name.
  pub find_iff :
      (a : Application S) (name : String) (c : Component S)
      → IsFiled a.components
      → (find a name ≡ some c) ↔ (Memᴰ c a.components × (c.name ≡ name))
  unfolding find
  find_iff a name c k = elim (Bool-cases (name == "")) [
    | inl empty ↦ rw empty (
      λ h. cc,
      λ h. absurd (unnamed_absent a.components c k h.0 (h.1 ∙ (eq_iff name "").0 empty)),
    )
    | inr named ↦ rw named (
      find_in-Memᴰ name a.components c,
      λ h. ap (λ n. find_in n a.components) (sym h.1) ∙ Memᴰ-find_in a.components c k h.0,
    )
  ]

  absent_from :
      (name : String) (found : Option (Component S)) (cs : List (Component S))
      → find_in name cs ≡ none
      → remove_from name found cs ≡ (found, cs)
  unfolding find_in remove_from
  absent_from name found [] h = refl
  absent_from name found (c ∷ cs) h = ground (arith, absent_from name found cs)

  remove_from_found :
      (name : String) (cs : List (Component S))
      → IsFiled cs
      → (remove_from name none cs).0 ≡ find_in name cs
  unfolding find_in remove_from
  remove_from_found name [] k = refl
  remove_from_found name (c ∷ cs) k = elim (Bool-cases (c.name == name)) [
    | inl same ↦ rw same (
        ap (λ x. x.0)
          (absent_from name (some c) cs
            (ap (λ n. find_in n cs) (sym ((eq_iff c.name name).0 same)) ∙ k.0.1)))
    | inr other ↦ rw other (remove_from_found name cs k.1)
  ]

  find_in-remove_from :
      (name other : String) (found : Option (Component S)) (cs : List (Component S))
      → find_in other (remove_from name found cs).1
        ≡ (if name == other then none else find_in other cs)
  unfolding find_in remove_from
  find_in-remove_from name other found [] = ground arith
  find_in-remove_from name other found (c ∷ cs) = ground (
    arith,
    find_in-remove_from name other found cs,
    find_in-remove_from name other (some c) cs,
    eq_iff c.name name,
    eq_iff c.name other,
    eq_iff name other,
  )

  -- When every component has a name of its own, Remove of a name returns the component that Find finds, and
  -- afterwards Find finds no component of the name, and those of all other names as before.
  pub remove_outcome :
      (a : Application S) (name other : String)
      → IsFiled a.components
      → ((remove name a).0 ≡ find a name)
        × (find (remove name a).1 other ≡ (if name == other then none else find a other))
  unfolding remove find
  remove_outcome a name other k = (
    ground (arith, remove_from_found name a.components k),
    ground (
      arith,
      find_in-remove_from name other none a.components,
      eq_iff name other,
      eq_iff name "",
      eq_iff other "",
    ),
  )
