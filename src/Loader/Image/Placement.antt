-- ===== src/Loader/Image/Placement.antt =====
-- Where ld-instantos/src/main.cpp puts the segments of a library.
use i_user_apps.Common.{zero, suc, inl, inr, true, Bool-cases}
use i_user_apps.Common.{ℕ, ◌+◌, ◌*◌, ◌%◌, ◌≤◌, ◌<◌, ◌≡◌, arith}
use i_user_apps.Common.{add64, sub64, u64_mod, All, All-append, All-map, if◌then◌else◌}
use i_user_apps.Loader.Elf.{
  library_stride, page_size, ProgramHeader, Segment, ElfAbi, Kernel, File, ok, >>=-eq-ok,
  ok-injective,
}
use i_user_apps.Loader.Image.{
  align_down, align_up, map_start, map_size, Mapping, push_segment, map_segment, map_memory,
  or_fatal, map_segments, is_load,
}

align_down_bounds :
    (v : ℕ)
    → (align_down v page_size ≤ v)
      × (v < align_down v page_size + page_size)
      × (align_down v page_size % page_size ≡ 0)
unfolding align_down
align_down_bounds v = omega arith

align_up_bounds :
    (v : ℕ)
    → v + page_size ≤ u64_mod
    → (v ≤ align_up v page_size)
      × (align_up v page_size < v + page_size)
      × (align_up v page_size % page_size ≡ 0)
unfolding align_up
align_up_bounds v h = omega arith

-- No sum wraps around while the segment is placed.
abbrev pub SegmentFits : ℕ → ProgramHeader → Type 0
SegmentFits base ph =
    base + ph.virtual_address + ph.memory_size + 3 * page_size + 2 * library_stride ≤ u64_mod

abbrev pub segment_end : Segment → ℕ
segment_end s = s.address + s.size

-- If no sum wraps around, the mapping of a segment is made of whole pages, holds the memory of the
-- segment, and ends within a page of its end.
pub map_start_covers :
    (base : ℕ) (ph : ProgramHeader)
    → SegmentFits base ph
    → (map_start base ph ≤ base + ph.virtual_address)
      × (base + ph.virtual_address + ph.memory_size ≤ map_start base ph + map_size base ph)
      × (map_start base ph + map_size base ph
          < base + ph.virtual_address + ph.memory_size + page_size)
      × (map_start base ph % page_size ≡ 0)
      × (map_size base ph % page_size ≡ 0)
map_start_covers base ph fits =
    let start = add64 base ph.virtual_address in
    let down = align_down_bounds start in
    let inner = add64 (sub64 start (map_start base ph)) ph.memory_size in
    let up = align_up_bounds inner (omega (arith, down)) in omega (arith, down, up)

-- Every segment lies between `lo` and the end of what is mapped.
abbrev pub Within : ℕ → ℕ → Segment → Type 0
Within lo hi s = (lo ≤ s.address) × (segment_end s ≤ hi)

pub Within-mono : (lo hi hi' : ℕ) → hi ≤ hi' → (s : Segment) → Within lo hi s → Within lo hi' s
Within-mono lo hi hi' h s w = (w.0, omega arith)

push_segment-Within :
    (abi : ElfAbi) (base : ℕ) (ph : ProgramHeader) (m : Mapping)
    → base % page_size ≡ 0
    → SegmentFits base ph
    → m.max_address + 2 * library_stride ≤ u64_mod
    → All (Within base m.max_address) m.segments
    → All
        (Within base (push_segment abi base ph m).max_address)
        (push_segment abi base ph m).segments
      × (m.max_address ≤ (push_segment abi base ph m).max_address)
      × ((push_segment abi base ph m).max_address + 2 * library_stride ≤ u64_mod)
unfolding push_segment
push_segment-Within abi base ph m aligned fits room old =
    let seg = map_start_covers base ph fits in
    let top = (push_segment abi base ph m).max_address in
    let down = align_down_bounds (add64 base ph.virtual_address) in
    let mono : m.max_address ≤ top = ground arith in
    (
      All-append (Within base top) m.segments _
          (All-map (Within base m.max_address) (Within base top) m.segments
            (Within-mono base m.max_address top mono) old)
          ((omega (arith, down), ground (arith, seg)), tt),
      mono,
      ground (arith, seg),
    )

map_segment-eq :
    (abi : ElfAbi) (kernel : Kernel) (size base : ℕ) (ph : ProgramHeader) (m m' : Mapping)
    → map_segment abi kernel size base ph m ≡ ok m'
    → m' ≡ push_segment abi base ph m
unfolding map_segment map_memory or_fatal
map_segment-eq abi kernel size base ph m m' e = ground arith

-- What the segment loop keeps: the segments stay where they are and under the end of the mapping.
pub record Placed (base : ℕ) (m m' : Mapping) : Type 0 where
  pub within : All (Within base m'.max_address) m'.segments
  pub grows : m.max_address ≤ m'.max_address
  pub room : m'.max_address + 2 * library_stride ≤ u64_mod

pub map_segments-Placed :
    (abi : ElfAbi) (kernel : Kernel) (base : ℕ) (f : File) (n i : ℕ) (m m' : Mapping)
    → base % page_size ≡ 0
    → ((j : ℕ) → is_load (f.program_header j).type ≡ true → SegmentFits base (f.program_header j))
    → m.max_address + 2 * library_stride ≤ u64_mod
    → All (Within base m.max_address) m.segments
    → map_segments abi kernel base f n i m ≡ ok m'
    → Placed base m m'
unfolding map_segments
map_segments-Placed abi kernel base f zero i m m' aligned fits room old e =
    ground (arith, old, room)
map_segments-Placed abi kernel base f (suc n) i m m' aligned fits room old e =
    let ph = f.program_header i in
    let (m1, first, rest) =
      >>=-eq-ok (if is_load ph.type then map_segment abi kernel f.size base ph m else ok m) _ e in
    elim (Bool-cases (is_load ph.type)) [
      | inl loads ↦
          let pushed = map_segment-eq abi kernel f.size base ph m m1 (rw loads at first) in
          let now = push_segment-Within abi base ph m aligned (fits i loads) room old in
          let later =
            map_segments-Placed abi kernel base f n (i + 1) m1 m' aligned fits (rw pushed now.2)
              (rw pushed now.0) rest in
          let step : m.max_address ≤ m1.max_address = rw pushed now.1 in
          record {
            within = later.within;
            grows = omega (arith, step, later.grows);
            room = later.room;
          }
      | inr skips ↦
          let same : m ≡ m1 = ok-injective (rw skips at first) in
          map_segments-Placed abi kernel base f n (i + 1) m m' aligned fits room old (rw same rest)
    ]
