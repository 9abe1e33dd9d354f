-- ===== src/VmSpace/Pages.antt =====
-- The loop of `map` of kernel/src/vmspace.rs over the pages of an area.
use ftl.Base.{
  ℕ, zero, suc, ◌+◌, ◌*◌, ◌≤◌, ◌<◌, ◌≡◌, refl, ap, subst, ◌∙◌, arith, ◌⊎◌, inl, inr, ltb, ◌==◌,
  if◌then◌else◌, true, false, Bool, Bool-cases, ◌-◌, Option, some, Exec, done, Result, ok, err,
}
use ftl.Base.Word.{IsUsize, usize_mod}
use ftl.Api.ErrorCode.{ErrorCode, out_of_memory}
use ftl.Arch.Direct.{min_page_size}
use ftl.VmSpace.{Backend, ◌>>=◌, map_pages}

-- What areas and page tables promise, from valid states: the frame of each page of an area, once it is there, and the frame and
-- attributes that the tables have for a page. An area finds the frame of a page of its own, or no memory; the tables
-- take an entry, and change no other, or answer with an error and change none.
pub record Mappable (b : Backend) : Type 1 where
  pub Valid : b.Store → Type 0
  pub page : b.Store → b.Area → ℕ → Option ℕ
  pub entry : b.Store → ℕ → Option (ℕ × ℕ)
  pub ensure :
      (area : b.Area) (index : ℕ) (s : b.Store)
      → Valid s
      → min_page_size * (index + 1) ≤ b.len area
      → (s' : b.Store) × Valid s'
        × ((other : b.Area) (i p : ℕ) → page s other i ≡ some p → page s' other i ≡ some p)
        × ((u : ℕ) → entry s' u ≡ entry s u)
        × (((p : ℕ) × (b.ensure_page area index s ≡ done (ok p, s'))
              × (page s' area index ≡ some p))
            ⊎ (b.ensure_page area index s ≡ done (err out_of_memory, s')))
  pub set :
      (uaddr paddr attrs : ℕ) (s : b.Store)
      → Valid s
      → (s' : b.Store) × Valid s'
        × ((other : b.Area) (i : ℕ) → page s' other i ≡ page s other i)
        × (((b.arch_map uaddr paddr min_page_size attrs s ≡ done (ok tt, s'))
              × ((u : ℕ) → entry s' u ≡ (if u == uaddr then some (paddr, attrs) else entry s u)))
            ⊎ ((e : ErrorCode) × (b.arch_map uaddr paddr min_page_size attrs s ≡ done (err e, s'))
                × ((u : ℕ) → entry s' u ≡ entry s u)))

module _ (b : Backend) (laws : Mappable b) where
  open b use {Area, Store, len, ensure_page, arch_map}
  open laws use {Valid, page, entry, ensure, set}

  -- `left` pages from `index` on are mapped from `uaddr` on, and no other entry has changed.
  abbrev pub PagesMapped : Store → Store → Area → ℕ → ℕ → ℕ → ℕ → Type 0
  PagesMapped s s' area left index uaddr attrs =
      ((i : ℕ)
        → i < left
        → (p : ℕ) × (page s' area (index + i) ≡ some p)
          × (entry s' (uaddr + min_page_size * i) ≡ some (p, attrs)))
      × ((u : ℕ) → (u < uaddr) ⊎ (uaddr + min_page_size * left ≤ u) → entry s' u ≡ entry s u)

  -- The answer of an area or of the tables for one of these pages.
  abbrev pub PageFails : Store → ErrorCode → Area → ℕ → ℕ → ℕ → ℕ → Type 0
  PageFails s' e area left index uaddr attrs =
      (i : ℕ) × (s1 : Store) × (i < left)
      × ((ensure_page area (index + i) s1 ≡ done (err e, s'))
          ⊎ ((p : ℕ) × (page s1 area (index + i) ≡ some p)
              × (arch_map (uaddr + min_page_size * i) p min_page_size attrs s1 ≡ done (err e, s'))))

  abbrev pub PagesOutcome :
      Store → Exec (Result (Unit {0}) ErrorCode × Store) → Area → ℕ → ℕ → ℕ → ℕ → Type 0
  PagesOutcome s run area left index uaddr attrs =
      (s' : Store) × Valid s'
      × ((other : Area) (i p : ℕ) → page s other i ≡ some p → page s' other i ≡ some p)
      × (((run ≡ done (ok tt, s')) × PagesMapped s s' area left index uaddr attrs)
          ⊎ ((e : ErrorCode) × (run ≡ done (err e, s'))
              × PageFails s' e area left index uaddr attrs))

  PagesOutcome-nil :
      (s : Store) (area : Area) (index uaddr attrs : ℕ)
      → Valid s
      → PagesOutcome s (done (ok tt, s)) area 0 index uaddr attrs
  PagesOutcome-nil s area index uaddr attrs v =
      (s, v, (λ other i p e. e), inl (refl, ((λ i lt. absurd (omega arith)), (λ u out. refl))))

  map_pages-step :
      (left index uaddr paddr attrs : ℕ) (area : Area) (s s1 s2 : Store)
      → ensure_page area index s ≡ done (ok paddr, s1)
      → arch_map uaddr paddr min_page_size attrs s1 ≡ done (ok tt, s2)
      → IsUsize (uaddr + min_page_size)
      → map_pages b (suc left) index uaddr area attrs s
        ≡ map_pages b left (index + 1) (uaddr + min_page_size) area attrs s2
  unfolding map_pages
  map_pages-step left index uaddr paddr attrs area s s1 s2 e e' small =
      let fits : ltb (uaddr + min_page_size) usize_mod ≡ true = ground arith in
      rw (map_pages, ◌>>=◌, e, e', fits) refl

  map_pages-full :
      (left index uaddr attrs : ℕ) (area : Area) (s s1 : Store) (c : ErrorCode)
      → ensure_page area index s ≡ done (err c, s1)
      → map_pages b (suc left) index uaddr area attrs s ≡ done (err c, s1)
  unfolding map_pages
  map_pages-full left index uaddr attrs area s s1 c e = rw (map_pages, ◌>>=◌, e) refl

  map_pages-refused :
      (left index uaddr paddr attrs : ℕ) (area : Area) (s s1 s2 : Store) (c : ErrorCode)
      → ensure_page area index s ≡ done (ok paddr, s1)
      → arch_map uaddr paddr min_page_size attrs s1 ≡ done (err c, s2)
      → map_pages b (suc left) index uaddr area attrs s ≡ done (err c, s2)
  unfolding map_pages
  map_pages-refused left index uaddr paddr attrs area s s1 s2 c e e' =
      rw (map_pages, ◌>>=◌, e, e') refl

  -- One page, and then the others.
  pages_join :
      (left index uaddr attrs p : ℕ) (area : Area) (s s2 s3 : Store)
      → page s3 area index ≡ some p
      → ((u : ℕ) → entry s2 u ≡ (if u == uaddr then some (p, attrs) else entry s u))
      → PagesMapped s2 s3 area left (index + 1) (uaddr + min_page_size) attrs
      → PagesMapped s s3 area (suc left) index uaddr attrs
  pages_join left index uaddr attrs p area s s2 s3 there table mapped =
      let first = λ (i : ℕ) (z : i ≡ 0).
        let at_index : index ≡ index + i = omega arith in
        let at_uaddr : uaddr ≡ uaddr + min_page_size * i = omega arith in
        let self : (uaddr == uaddr) ≡ true = ground arith in
        let put : entry s2 uaddr ≡ some (p, attrs) =
          table uaddr ∙ ap (λ (c : Bool). if c then some (p, attrs) else entry s uaddr) self in
        let result : (q : ℕ) × (page s3 area (index + i) ≡ some q)
            × (entry s3 (uaddr + min_page_size * i) ≡ some (q, attrs)) =
          (
            p,
            subst (λ (j : ℕ). page s3 area j ≡ some p) at_index there,
            subst (λ (u : ℕ). entry s3 u ≡ some (p, attrs)) at_uaddr
                (mapped.1 uaddr (inl (omega arith)) ∙ put),
          ) in
        result in
      let later = λ (i j : ℕ) (z : i ≡ suc j) (lt : j < left).
        let (q, here, put) = mapped.0 j lt in
        let result : (q : ℕ) × (page s3 area (index + i) ≡ some q)
            × (entry s3 (uaddr + min_page_size * i) ≡ some (q, attrs)) =
          (
            q,
            subst (λ (k : ℕ). page s3 area k ≡ some q) (omega arith) here,
            subst (λ (u : ℕ). entry s3 u ≡ some (q, attrs)) (omega arith) put,
          ) in
        result in
      let outside = λ (u : ℕ) (off : (u == uaddr) ≡ false).
        table u ∙ ap (λ (c : Bool). if c then some (p, attrs) else entry s u) off in
      (
        (λ i lt. elim (Bool-cases (i == 0)) [
          | inl z ↦ first i (ground arith)
          | inr z ↦ later i (i - 1) (ground arith) (ground arith)
        ]),
        (λ u out. elim out [
          | inl low ↦ mapped.1 u (inl (omega arith)) ∙ outside u (ground arith)
          | inr high ↦ mapped.1 u (inr (omega arith)) ∙ outside u (ground arith)
        ]),
      )

  fails_later :
      (left index uaddr attrs : ℕ) (area : Area) (s3 : Store) (e : ErrorCode)
      → PageFails s3 e area left (index + 1) (uaddr + min_page_size) attrs
      → PageFails s3 e area (suc left) index uaddr attrs
  fails_later left index uaddr attrs area s3 e (i, s1, lt, why) =
      let at_index : index + 1 + i ≡ index + suc i = omega arith in
      let at_uaddr : uaddr + min_page_size + min_page_size * i ≡ uaddr + min_page_size * suc i =
        omega arith in
      (
        suc i,
        s1,
        omega arith,
        elim why [
          | inl full ↦
              inl (subst (λ (k : ℕ). ensure_page area k s1 ≡ done (err e, s3)) at_index full)
          | inr (p, there, refused) ↦ inr (
            p,
            subst (λ (k : ℕ). page s1 area k ≡ some p) at_index there,
            subst (λ (u : ℕ). arch_map u p min_page_size attrs s1 ≡ done (err e, s3)) at_uaddr
                refused,
          )
        ],
      )

  pub map_pages_lem :
      (left index uaddr : ℕ) (area : Area) (attrs : ℕ) (s : Store)
      → Valid s
      → min_page_size * (index + left) ≤ len area
      → IsUsize (uaddr + min_page_size * left)
      → PagesOutcome s (map_pages b left index uaddr area attrs s) area left index uaddr attrs
  unfolding map_pages
  map_pages_lem zero index uaddr area attrs s v inside small =
      PagesOutcome-nil s area index uaddr attrs v
  map_pages_lem (suc left) index uaddr area attrs s v inside small =
      let start : index + 0 ≡ index = omega arith in
      let here : uaddr + min_page_size * 0 ≡ uaddr = omega arith in
      let (s1, v1, stay1, table1, got) = ensure area index s v (omega arith) in
      elim got [
        | inr full ↦ (
          s1,
          v1,
          stay1,
          inr (
            out_of_memory,
            map_pages-full left index uaddr attrs area s s1 out_of_memory full,
            (0, s, omega arith, inl (ap (λ (i : ℕ). ensure_page area i s) start ∙ full)),
          ),
        )
        | inl (p, found, there) ↦
            let (s2, v2, stay2, put) = set uaddr p attrs s1 v1 in
            let kept = λ (other : Area) (i q : ℕ) (e : page s other i ≡ some q).
              stay2 other i ∙ stay1 other i q e in
            elim put [
              | inr (c, refused, table2) ↦ (
                s2,
                v2,
                kept,
                inr (
                  c,
                  map_pages-refused left index uaddr p attrs area s s1 s2 c found refused,
                  (
                    0,
                    s1,
                    omega arith,
                    inr (
                      p,
                      ap (page s1 area) start ∙ there,
                      ap (λ (u : ℕ). arch_map u p min_page_size attrs s1) here ∙ refused,
                    ),
                  ),
                ),
              )
              | inl (done_here, table2) ↦
                  let step =
                    map_pages-step left index uaddr p attrs area s s1 s2 found done_here
                      (omega arith) in
                  let (s3, v3, stay3, outcome) =
                    map_pages_lem left (index + 1) (uaddr + min_page_size) area attrs s2 v2
                      (omega arith) (omega arith) in
                  (
                    s3,
                    v3,
                    (λ other i q e. stay3 other i q (kept other i q e)),
                    elim outcome [
                      | inl (run, mapped) ↦ inl (
                        step ∙ run,
                        pages_join left index uaddr attrs p area s s2 s3
                            (stay3 area index p (stay2 area index ∙ there))
                            (λ u.
                              table2 u
                              ∙ ap
                                  (λ (e : Option (ℕ × ℕ)).
                                    if u == uaddr then some (p, attrs) else e)
                                  (table1 u))
                            mapped,
                      )
                      | inr (e, run, why) ↦
                          inr (e, step ∙ run, fails_later left index uaddr attrs area s3 e why)
                    ],
                  )
            ]
      ]
