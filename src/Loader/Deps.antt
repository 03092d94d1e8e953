-- ===== src/Loader/Deps.antt =====
-- `findObject`, `resolveSoname`, `loadDependency` and the dependency loop of `ld_main` in
-- ld-instantos/src/main.cpp.
pub mod Steps
pub mod Closure
use i_user_apps.Common.{
  ℕ, zero, suc, ◌+◌, ◌-◌, Bool, true, false, ◌||◌, if◌then◌else◌, Option, some, none, List, [], ◌∷◌,
  get_elem?,
}
use i_user_apps.Loader.Elf.{Object, ElfAbi, Views, Kernel, Loader, Result, ok, fatal, ◌>>=◌}
use i_user_apps.Loader.Text.{cstr_equal, copy_string, append_string}
use i_user_apps.Loader.Image.{read_whole_file, load_object}

unfoldable pub find_object : List ℕ → List Object → Option Object
find_object name [] = none
find_object name (o ∷ objects) =
    let rest = find_object name objects in
    if cstr_equal (some o.name) (some name) then some o else rest

abbrev pub libm_so_6 : List ℕ
libm_so_6 = b'l' ∷ b'i' ∷ b'b' ∷ b'm' ∷ b'.' ∷ b's' ∷ b'o' ∷ b'.' ∷ b'6' ∷ []

abbrev pub libc_so_6 : List ℕ
libc_so_6 = b'l' ∷ b'i' ∷ b'b' ∷ b'c' ∷ b'.' ∷ b's' ∷ b'o' ∷ b'.' ∷ b'6' ∷ []

abbrev pub libc_so : List ℕ
libc_so = b'l' ∷ b'i' ∷ b'b' ∷ b'c' ∷ b'.' ∷ b's' ∷ b'o' ∷ []

abbrev pub libpthread_so_0 : List ℕ
libpthread_so_0 =
    b'l' ∷ b'i' ∷ b'b' ∷ b'p' ∷ b't' ∷ b'h' ∷ b'r' ∷ b'e' ∷ b'a' ∷ b'd' ∷ b'.' ∷ b's' ∷ b'o' ∷ b'.'
    ∷ b'0' ∷ []

abbrev pub libdl_so_2 : List ℕ
libdl_so_2 = b'l' ∷ b'i' ∷ b'b' ∷ b'd' ∷ b'l' ∷ b'.' ∷ b's' ∷ b'o' ∷ b'.' ∷ b'2' ∷ []

abbrev pub librt_so_1 : List ℕ
librt_so_1 = b'l' ∷ b'i' ∷ b'b' ∷ b'r' ∷ b't' ∷ b'.' ∷ b's' ∷ b'o' ∷ b'.' ∷ b'1' ∷ []

abbrev pub libinstant_so : List ℕ
libinstant_so =
    b'l' ∷ b'i' ∷ b'b' ∷ b'i' ∷ b'n' ∷ b's' ∷ b't' ∷ b'a' ∷ b'n' ∷ b't' ∷ b'.' ∷ b's' ∷ b'o' ∷ []

abbrev pub lib_folder : List ℕ
lib_folder = b'/' ∷ b'l' ∷ b'i' ∷ b'b' ∷ b'/' ∷ []

abbrev pub is_alias : List ℕ → Bool
is_alias needed =
    cstr_equal (some needed) (some libm_so_6)
    || cstr_equal (some needed) (some libc_so_6)
    || cstr_equal (some needed) (some libc_so)
    || cstr_equal (some needed) (some libpthread_so_0)
    || cstr_equal (some needed) (some libdl_so_2)
    || cstr_equal (some needed) (some librt_so_1)

-- All aliases are for one library.
unfoldable pub resolve_soname : List ℕ → List ℕ
resolve_soname needed = if is_alias needed then libinstant_so else needed

abbrev path_capacity : ℕ
path_capacity = 128

unfoldable pub dependency_path : List ℕ → List ℕ
dependency_path name =
    append_string (copy_string [] path_capacity (some lib_folder)) path_capacity (some name)

-- The case in which `findObject` finds nothing.
unfoldable pub load_file : ElfAbi → Kernel → Views → List ℕ → Loader → Result Loader
load_file abi kernel views name st = do
  (address, f) ← read_whole_file kernel (dependency_path name)
  load_object abi kernel views name address f st.next_base st

-- The caller does not use the object that is returned.
unfoldable pub load_dependency : ElfAbi → Kernel → Views → List ℕ → Loader → Result Loader
load_dependency abi kernel views needed st =
    let loaded = load_file abi kernel views (resolve_soname needed) st in
    elim (find_object (resolve_soname needed) st.objects) [ none ↦ loaded | some existing ↦ ok st ]

-- The loop over `object.needed`.
unfoldable pub load_needed : ElfAbi → Kernel → Views → List (List ℕ) → Loader → Result Loader
load_needed abi kernel views [] st = ok st
load_needed abi kernel views (name ∷ names) st =
    load_dependency abi kernel views name st >>= load_needed abi kernel views names

-- The loop over the objects from `i` on, that grow as it runs. `none` is out of fuel.
unfoldable pub load_all : ElfAbi → Kernel → Views → ℕ → ℕ → Loader → Option (Result Loader)
load_all abi kernel views zero i st = none
load_all abi kernel views (suc n) i st = elim (get_elem? st.objects i) [
  | none ↦ some (ok st)
  | some o ↦ elim (load_needed abi kernel views o.needed st) [
    | ok st' ↦ load_all abi kernel views n (i + 1) st'
    | fatal e ↦ some (fatal e)
  ]
]
