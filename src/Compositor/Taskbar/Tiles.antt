-- ===== src/Compositor/Taskbar/Tiles.antt =====
-- Which windows the task bar of graphics-compositor/src/scene.cpp has a tile for.
use i_user_apps.Common.{
  ℕ, suc, ◌+◌, ◌-◌, ◌≤◌, ◌<◌, ◌≡◌, refl, ap, ◌∙◌, subst, ◌≢◌, inl, inr, List, [], ◌∷◌, ◌++◌, map,
  arith, ltb, ◌==◌, if◌then◌else◌, ltb→lt, ltb→ge, Bool-cases, length, replicate, All, All-map,
  append_nil, reverse, Perm,
}
use i_user_apps.Compositor.Window.{WindowInfo, Rect}
use i_user_apps.Compositor.Taskbar.{
  TaskbarTile, place_tiles, taskbar_layout, pinned_tiles, window_tile, pinned_count, max_tiles,
  is_unpinned, insert_tile, add_tile, add_tiles,
}
use mathlib.Core.List.Perm
use mathlib.Core.List.{perm_middle}

abbrev pub tile_room : ℕ
tile_room = max_tiles - pinned_count

-- The ids of the windows that have no pinned app, in the order of the list of windows.
abbrev pub unpinned_ids : List WindowInfo → List ℕ
unpinned_ids [] = []
unpinned_ids (window ∷ windows) =
    let rest = unpinned_ids windows in if is_unpinned window then window.id ∷ rest else rest

abbrev pub IsDescending : List ℕ → Type 0
IsDescending [] = Unit
IsDescending (id ∷ ids) = All (λ t. t ≤ id) ids × IsDescending ids

-- `tiles` are the smallest ids of `ids`, as many as there is room for; `rest` are the others.
pub record Oldest (ids tiles rest : List ℕ) : Type 0 where
  pub all : Perm (tiles ++ rest) ids
  pub ordered : IsDescending tiles
  pub room : length tiles ≤ tile_room
  pub full : 0 < length rest → length tiles ≡ tile_room
  pub older : All (λ id. All (λ t. t ≤ id) tiles) rest

insert_tile-perm : (id : ℕ) (tiles : List ℕ) → Perm (insert_tile id tiles) (id ∷ tiles)
unfolding insert_tile
insert_tile-perm id [] = Perm.refl _
insert_tile-perm id (last ∷ before) = elim (Bool-cases (ltb id last)) [
  | inl further ↦
      rw further
        (Perm.trans (Perm.cons last (insert_tile-perm id before)) (Perm.swap id last before))
  | inr here ↦ rw here (Perm.refl _)
]

length-insert_tile : (id : ℕ) (tiles : List ℕ) → length (insert_tile id tiles) ≡ suc (length tiles)
unfolding insert_tile
length-insert_tile id [] = refl
length-insert_tile id (last ∷ before) = ground (arith, length-insert_tile id before)

insert_tile-All :
    (P : ℕ → Type 0) (id : ℕ) (tiles : List ℕ) → P id → All P tiles → All P (insert_tile id tiles)
unfolding insert_tile
insert_tile-All P id [] here all = (here, tt)
insert_tile-All P id (last ∷ before) here all = elim (Bool-cases (ltb id last)) [
  | inl further ↦ rw further (all.0, insert_tile-All P id before here all.1)
  | inr placed ↦ rw placed (here, all)
]

below_trans : (a b : ℕ) (ids : List ℕ) → b ≤ a → All (λ t. t ≤ b) ids → All (λ t. t ≤ a) ids
below_trans a b ids h all = All-map (λ t. t ≤ b) (λ t. t ≤ a) ids (λ t le. omega (arith, le, h)) all

insert_tile-IsDescending :
    (id : ℕ) (tiles : List ℕ) → IsDescending tiles → IsDescending (insert_tile id tiles)
unfolding insert_tile
insert_tile-IsDescending id [] sorted = (tt, tt)
insert_tile-IsDescending id (last ∷ before) sorted = elim (Bool-cases (ltb id last)) [
  | inl further ↦ rw further (
    insert_tile-All (λ t. t ≤ last) id before (omega (arith, ltb→lt id last further)) sorted.0,
    insert_tile-IsDescending id before sorted.1,
  )
  | inr here ↦
      let le = ltb→ge id last here in rw here ((le, below_trans id last before le sorted.0), sorted)
]

All-none : (P : ℕ → Type 0) (rest : List ℕ) → length rest ≡ 0 → All P rest
All-none P [] e = tt
All-none P (r ∷ rest) e = absurd (omega (arith, e))

-- While there is room, no window is left out.
with_room :
    (id : ℕ) (ids tiles rest : List ℕ)
    → Oldest ids tiles rest
    → length tiles ≢ tile_room
    → Oldest (id ∷ ids) (insert_tile id tiles) rest
with_room id ids tiles rest old few =
    let few' : ¬ (0 < length rest) = λ some_left. few (old.full some_left) in
    let more = length-insert_tile id tiles in
    let room = old.room in
    record {
      all = Perm.trans (Perm.append_right rest (insert_tile-perm id tiles)) (Perm.cons id old.all);
      ordered = insert_tile-IsDescending id tiles old.ordered;
      room = omega (arith, more, room, few);
      full = λ some_left. absurd (few' some_left);
      older = All-none (λ r. All (λ t. t ≤ r) (insert_tile id tiles)) rest (omega (arith, few'));
    }

-- A newer window than all those with tiles is left out.
newer_left :
    (id last : ℕ) (ids before rest : List ℕ)
    → Oldest ids (last ∷ before) rest
    → length (last ∷ before) ≡ tile_room
    → last ≤ id
    → Oldest (id ∷ ids) (last ∷ before) (id ∷ rest)
newer_left id last ids before rest old used le = record {
  all = Perm.trans (perm_middle (last ∷ before) rest) (Perm.cons id old.all);
  ordered = old.ordered;
  room = old.room;
  full = λ some_left. used;
  older = ((le, below_trans id last before le old.ordered.0), old.older);
}

-- The last tile goes to an older window.
last_replaced :
    (id last : ℕ) (ids before rest : List ℕ)
    → Oldest ids (last ∷ before) rest
    → length (last ∷ before) ≡ tile_room
    → id ≤ last
    → Oldest (id ∷ ids) (insert_tile id before) (last ∷ rest)
last_replaced id last ids before rest old used le =
    let more = length-insert_tile id before in
    record {
      all =
          Perm.trans (Perm.append_right (last ∷ rest) (insert_tile-perm id before))
            (Perm.cons id (Perm.trans (perm_middle before rest) old.all));
      ordered = insert_tile-IsDescending id before old.ordered.1;
      room = omega (arith, more, used);
      full = λ some_left. more ∙ used;
      older = (
        insert_tile-All (λ t. t ≤ last) id before le old.ordered.0,
        All-map (λ r. All (λ t. t ≤ r) (last ∷ before))
            (λ r. All (λ t. t ≤ r) (insert_tile id before)) rest
            (λ r all. insert_tile-All (λ t. t ≤ r) id before (omega (arith, le, all.0)) all.1)
            old.older,
      );
    }

add_tile-Oldest :
    (id : ℕ) (ids tiles rest : List ℕ)
    → Oldest ids tiles rest
    → (rest' : List ℕ) × Oldest (id ∷ ids) (add_tile id tiles) rest'
unfolding add_tile insert_tile
add_tile-Oldest id ids [] rest old =
    (rest, with_room id ids [] rest old (λ e. absurd (omega (arith, e))))
add_tile-Oldest id ids (last ∷ before) rest old =
    elim (Bool-cases (length (last ∷ before) == tile_room)) [
      | inr space ↦
          let few : length (last ∷ before) ≢ tile_room = ground (arith, space) in
          (rest, rw space (with_room id ids (last ∷ before) rest old few))
      | inl used ↦
          let full : length (last ∷ before) ≡ tile_room = ground (arith, used) in
          elim (Bool-cases (ltb last id)) [
            | inl newer ↦
                let lt = ltb→lt last id newer in
                (
                  id ∷ rest,
                  rw (used, newer)
                      (newer_left id last ids before rest old full (omega (arith, lt))),
                )
            | inr older ↦ (
              last ∷ rest,
              rw (used, older)
                  (last_replaced id last ids before rest old full (ltb→ge last id older)),
            )
          ]
    ]

add_tiles-Oldest :
    (windows : List WindowInfo) (ids tiles rest : List ℕ)
    → Oldest ids tiles rest
    → (rest' : List ℕ) × Oldest (unpinned_ids windows ++ ids) (add_tiles windows tiles) rest'
unfolding add_tiles
add_tiles-Oldest [] ids tiles rest old = (rest, old)
add_tiles-Oldest (window ∷ windows) ids tiles rest old = elim (Bool-cases (is_unpinned window)) [
  | inr pinned ↦ rw pinned (add_tiles-Oldest windows ids tiles rest old)
  | inl mine ↦
      let (rest', next) = add_tile-Oldest window.id ids tiles rest old in
      let (others, all) =
        add_tiles-Oldest windows (window.id ∷ ids) (add_tile window.id tiles) rest' next in
      rw mine (
        others,
        record {
          all = Perm.trans all.all (perm_middle (unpinned_ids windows) ids);
          ordered = all.ordered;
          room = all.room;
          full = all.full;
          older = all.older;
        },
      )
]

-- The tiles behind the pinned ones are those of the open windows without a pinned app that have the
-- smallest ids, the greatest of them last, as many as there is room for.
pub add_tiles-Oldest_windows :
    (windows : List WindowInfo)
    → (rest : List ℕ) × Oldest (unpinned_ids windows) (add_tiles windows []) rest
add_tiles-Oldest_windows windows =
    let (rest, old) = add_tiles-Oldest windows [] [] [] (record {
      all = Perm.refl _;
      ordered = tt;
      room = omega arith;
      full = λ some_left. absurd (omega (arith, some_left));
      older = tt;
    }) in
    (
      rest,
      subst (λ ids. Oldest ids (add_tiles windows []) rest) (append_nil (unpinned_ids windows)) old,
    )

abbrev pub tile_ids : List TaskbarTile → List ℕ
tile_ids [] = []
tile_ids (tile ∷ tiles) = tile.window_id ∷ tile_ids tiles

tile_ids-place_tiles :
    (bar : Rect) (x0 : ℕ) (tiles : List TaskbarTile) (i : ℕ)
    → tile_ids (place_tiles bar x0 tiles i) ≡ tile_ids tiles
unfolding place_tiles
tile_ids-place_tiles bar x0 [] i = refl
tile_ids-place_tiles bar x0 (tile ∷ tiles) i =
    ap (◌∷◌ tile.window_id) (tile_ids-place_tiles bar x0 tiles (i + 1))

tile_ids-map : (ids : List ℕ) → tile_ids (map window_tile ids) ≡ ids
tile_ids-map [] = refl
tile_ids-map (id ∷ ids) = ap (◌∷◌ id) (tile_ids-map ids)

-- Behind the tiles of the five pinned apps, whose id is 0, the task bar has those of the open windows
-- without a pinned app that have the smallest ids, as many as there is room for, the smallest first.
pub taskbar_layout-Oldest :
    (screen_width screen_height : ℕ) (windows : List WindowInfo)
    → (tiles : List ℕ) × ((rest : List ℕ) × (Oldest (unpinned_ids windows) tiles rest
          × (tile_ids (taskbar_layout screen_width screen_height windows).tiles
              ≡ replicate pinned_count 0 ++ reverse tiles)))
unfolding taskbar_layout
taskbar_layout-Oldest screen_width screen_height windows =
    let (rest, old) = add_tiles-Oldest_windows windows in
    let shown = reverse (add_tiles windows []) in
    (
      add_tiles windows [],
      (
        rest,
        (
          old,
          tile_ids-place_tiles _ _ (pinned_tiles ++ map window_tile shown) 0
              ∙ ap (λ ids. replicate pinned_count 0 ++ ids) (tile_ids-map shown),
        ),
      ),
    )
