-- ===== src/Memory/Page/Runs.antt =====
-- Sequences of calls of the page allocator.
use ftl.Base.{
  ℕ, ◌%◌, ◌<◌, ◌≡◌, refl, inl, inr, arith, Option, none, some, List, [], ◌∷◌, map, All, Exec, done,
  ◌>>=◌, ◌==◌, lt→ltb, ==_iff,
}
use ftl.Arch.Direct.{min_page_size}
use ftl.Align.{is_aligned}
use ftl.Align.Laws.{is_aligned-pow}
use ftl.Memory.Visit.{Range}
use ftl.Memory.Visit.Exact.{InSome}
use ftl.Memory.Page.{PageAllocator, PageType, Ram, alloc_from, prepare, alloc}
use ftl.Memory.Page.Frames.{span, Left, Separate, Small, frame, alloc_from-Outcome}

pub record Request : Type 0 where
  pub len : ℕ
  pub page_type : PageType

-- What a caller may ask for: a positive number of whole pages.
abbrev pub IsWhole : Request → Type 0
IsWhole r = (0 < r.len) × (r.len % min_page_size ≡ 0)

abbrev granted : Option ℕ → ℕ → List Range → List Range
granted none len frames = frames
granted (some a) len frames = frame a len ∷ frames

-- The calls of a client in order, and the frames that they return.
pub alloc_all : PageAllocator → Ram → List Request → Exec (List Range × PageAllocator × Ram)
alloc_all p ram [] = done ([], p, ram)
alloc_all p ram (r ∷ rest) = do
  (a, p', ram') ← alloc p ram r.len r.page_type
  (frames, p'', ram'') ← alloc_all p' ram' rest
  done (granted a r.len frames, p'', ram'')

pub is_aligned-page : (v : ℕ) → is_aligned v min_page_size ≡ done (v % min_page_size == 0)
is_aligned-page v = is_aligned-pow v 12 (omega arith)

-- `alloc` past its assertions.
pub alloc-whole :
    (p : PageAllocator) (ram : Ram) (r : Request)
    → IsWhole r
    → alloc p ram r.len r.page_type ≡ (
        alloc_from p.regions r.len >>= λ (a, rs).
        done (a, record p { regions = rs }, prepare r.page_type ram r.len a))
unfolding alloc
alloc-whole p ram r w =
    rw (lt→ltb 0 r.len w.0, is_aligned-page r.len, (==_iff (r.len % min_page_size) 0).1 w.1)

abbrev Served : PageAllocator → Ram → List Request → Type 0
Served p ram rs =
    (frames : List Range) × (p' : PageAllocator) × (ram' : Ram) × (alloc_all p ram rs
      ≡ done (frames, p', ram'))
    × All (λ f. f.start % min_page_size ≡ 0) frames
    × ((x : ℕ)
        → (InSome x frames → Left x p.regions)
          × (Separate x (map span p.regions) → Separate x frames))

serve_requests :
    (rs : List Request) (p : PageAllocator) (ram : Ram)
    → Small p.regions
    → All IsWhole rs
    → Served p ram rs
unfolding alloc_all
serve_requests [] p ram s w = ([], p, ram, refl, tt, λ x. ((λ i. absurd i), λ _. tt))
serve_requests (r ∷ rest) p ram s w = elim (alloc_from-Outcome r.len p.regions s) [
  | inr e ↦
      let (frames, p', ram', run, al, xs) =
        serve_requests rest p (prepare r.page_type ram r.len none) s w.1 in
      (frames, p', ram', rw (alloc-whole p ram r w.0) (rw (e, ◌>>=◌) (rw (run, ◌>>=◌))), al, xs)
  | inl (a, rs', e, c) ↦
      let (frames, p', ram', run, al, xs) =
        serve_requests rest (record p { regions = rs' }) (prepare r.page_type ram r.len (some a))
          ((c 0).small s) w.1 in
      (
        frame a r.len ∷ frames,
        p',
        ram',
        rw (alloc-whole p ram r w.0) (rw (e, ◌>>=◌) (rw (run, ◌>>=◌))),
        ((c 0).aligned, al),
        λ x. (
          elim [ inl i ↦ (c x).taken i | inr i ↦ (c x).rest ((xs x).0 i) ],
          λ sep. ((λ i f. (c x).gone sep ((xs x).0 f) i), (xs x).1 ((c x).separate sep)),
        ),
      )
]

-- Where each request is for a positive number of whole pages, no sequence of allocations panics. The
-- frames that it returns are page-aligned; each address of a frame was left in some region; and if
-- no address is in two regions, none is in two frames.
pub alloc_all-Separate :
    (rs : List Request) (p : PageAllocator) (ram : Ram)
    → Small p.regions
    → All IsWhole rs
    → (frames : List Range) × (p' : PageAllocator) × (ram' : Ram) × (alloc_all p ram rs
        ≡ done (frames, p', ram'))
      × All (λ f. f.start % min_page_size ≡ 0) frames
      × ((x : ℕ)
          → (InSome x frames → Left x p.regions)
            × (Separate x (map span p.regions) → Separate x frames))
alloc_all-Separate rs p ram s w = serve_requests rs p ram s w
