-- ===== src/Browser/Events/Reach.antt =====
-- The windows that the events of file-browser/src/main.cpp lead to.
use i_user_apps.Common.{some}
use i_user_apps.Common.{
  ℕ, inl, inr, Bool, true, false, ◌&&◌, Option, none, List, [], arith, ltb, ltb→lt, Bool-cases,
  Option-cases, length,
}
use i_user_apps.Browser.Text.{BrowserEntry, is_directory, is_empty}
use i_user_apps.Browser.FolderPath.{build_child_path}
use i_user_apps.Browser.State.{
  FileSystem, Browser, path_capacity, apply_filter, show_status, set_message, row_entry,
  selected_name,
}
use i_user_apps.Browser.Events.{
  run_program, activate_entry, open_entry, escape_key, select_row, Event, KeyName, KeyEvent,
  plain_key, alt_key, is_key_f, on_key_down, handle, on_create,
}
use i_user_apps.Browser.Events.Valid.{
  Listing, IsValid, load_directory-IsValid, apply_filter-Listing,
}
use i_user_apps.Browser.Events.Moves.{
  navigate-IsValid, go_back-IsValid, go_forward-IsValid, open_parent-IsValid, open_place-IsValid,
}

-- The history and the buttons stay as they are when other rows, or another text, are shown.
shown_otherwise :
    (b : Browser) (text : List ℕ) (rows : List ℕ) (row : Option ℕ)
    → (line : List ℕ) (error gone : Bool) → IsValid b
    → Listing (record b {
      search = text;
      visible = rows;
      selected = row;
      status = line;
      status_is_error = error;
      closed = gone;
    })
    → IsValid (record b {
      search = text;
      visible = rows;
      selected = row;
      status = line;
      status_is_error = error;
      closed = gone;
    })
shown_otherwise b text rows row line error gone valid listing =
    let old = valid.history in
    let at = valid.buttons in
    record {
      history = record {
        current = old.current;
        back = old.back;
        forward = old.forward;
        back_bound = old.back_bound;
        forward_bound = old.forward_bound;
      };
      listing = listing;
      buttons = record {
        back_button = at.back_button;
        forward_button = at.forward_button;
        up_button = at.up_button;
      };
    }

-- Only what the status line says and whether the window is closed differ.
record_status :
    (b : Browser) (line : List ℕ) (error gone : Bool)
    → IsValid b
    → IsValid (record b { status = line; status_is_error = error; closed = gone })
record_status b line error gone valid =
    let shown = valid.listing in
    shown_otherwise b b.search b.visible b.selected line error gone valid (record {
      bound = shown.bound;
      rows = shown.rows;
      ascending = shown.ascending;
      complete = shown.complete;
      selected = shown.selected;
    })

set_message-IsValid :
    (b : Browser) (text : List ℕ) (error : Bool) → IsValid b → IsValid (set_message b text error)
unfolding set_message
set_message-IsValid b text error valid = record_status b _ error b.closed valid

run_program-IsValid :
    (fs : FileSystem) (e : BrowserEntry) (target : List ℕ) (b : Browser)
    → IsValid b
    → IsValid (run_program fs e target b)
unfolding run_program
run_program-IsValid fs e target b valid = elim (Option-cases (fs.spawn target)) [
  | inl failed ↦ rw (run_program, failed) (set_message-IsValid b _ true valid)
  | inr (pid, started) ↦ rw (run_program, started) (set_message-IsValid b _ false valid)
]

activate_entry-IsValid :
    (fs : FileSystem) (e : BrowserEntry) (b : Browser) → IsValid b → IsValid (activate_entry fs e b)
unfolding activate_entry
activate_entry-IsValid fs e b valid =
    let target = build_child_path b.current_path e.dir.name path_capacity in
    let run = run_program-IsValid fs e target b valid in
    elim (Bool-cases (is_directory e.dir.type)) [
      | inl folder ↦ rw folder (navigate-IsValid fs target none b valid)
      | inr file ↦ elim (Bool-cases e.executable) [
        | inr plain ↦ rw (file, plain) (set_message-IsValid b _ true valid)
        | inl program ↦ simp (file, program) run
      ]
    ]

open_entry-IsValid :
    (fs : FileSystem) (row : ℕ) (b : Browser) → IsValid b → IsValid (open_entry fs row b)
unfolding open_entry
open_entry-IsValid fs row b valid = elim (Option-cases (row_entry b row)) [
  | inl hidden ↦ rw (open_entry, hidden) valid
  | inr (e, shown) ↦ rw (open_entry, shown) (activate_entry-IsValid fs e b valid)
]

search-IsValid :
    (text : List ℕ) (b : Browser)
    → IsValid b
    → IsValid (apply_filter none (record b { search = text }))
unfolding apply_filter show_status
search-IsValid text b valid =
    shown_otherwise b text _ _ _ false b.closed valid
      (apply_filter-Listing none (record b { search = text }) valid.listing.bound)

escape_key-IsValid : (b : Browser) → IsValid b → IsValid (escape_key b)
unfolding escape_key
escape_key-IsValid b valid = elim (Bool-cases (is_empty b.search)) [
  | inl empty ↦ rw empty (record_status b b.status b.status_is_error true valid)
  | inr text ↦ rw text (search-IsValid [] b valid)
]

select_row-IsValid : (row : ℕ) (b : Browser) → IsValid b → IsValid (select_row row b)
unfolding select_row show_status
select_row-IsValid row b valid =
    let shown = valid.listing in
    elim (Bool-cases (ltb row (length b.visible))) [
      | inr outside ↦ rw outside valid
      | inl inside ↦ rw inside (
          shown_otherwise b b.search b.visible (some row) _ false b.closed valid (record {
            bound = shown.bound;
            rows = shown.rows;
            ascending = shown.ascending;
            complete = shown.complete;
            selected = ltb→lt row (length b.visible) inside;
          }))
    ]

plain_key-IsValid :
    (fs : FileSystem) (key : KeyName) (b : Browser) → IsValid b → IsValid (plain_key fs key b).1
unfolding plain_key
plain_key-IsValid fs KeyName.backspace b valid = open_parent-IsValid fs b valid
plain_key-IsValid fs KeyName.f5 b valid =
    load_directory-IsValid fs (selected_name b) b valid.history
plain_key-IsValid fs KeyName.escape b valid = escape_key-IsValid b valid
plain_key-IsValid fs KeyName.key_f b valid = valid
plain_key-IsValid fs KeyName.key_up b valid = valid
plain_key-IsValid fs KeyName.key_left b valid = valid
plain_key-IsValid fs KeyName.key_right b valid = valid
plain_key-IsValid fs KeyName.other_key b valid = valid

alt_key-IsValid :
    (fs : FileSystem) (key : KeyName) (b : Browser) → IsValid b → IsValid (alt_key fs key b).1
unfolding alt_key
alt_key-IsValid fs KeyName.key_up b valid = open_parent-IsValid fs b valid
alt_key-IsValid fs KeyName.key_left b valid = go_back-IsValid fs b valid
alt_key-IsValid fs KeyName.key_right b valid = go_forward-IsValid fs b valid
alt_key-IsValid fs KeyName.backspace b valid = valid
alt_key-IsValid fs KeyName.f5 b valid = valid
alt_key-IsValid fs KeyName.escape b valid = valid
alt_key-IsValid fs KeyName.key_f b valid = valid
alt_key-IsValid fs KeyName.other_key b valid = valid

on_key_down-IsValid :
    (fs : FileSystem) (event : KeyEvent) (b : Browser)
    → IsValid b
    → IsValid (on_key_down fs event b).1
unfolding on_key_down
on_key_down-IsValid fs event b valid = elim (Bool-cases (event.ctrl && is_key_f event.key)) [
  | inl find ↦ rw find valid
  | inr other ↦ elim (Bool-cases event.ctrl) [
    | inl held ↦ rw (other, held) valid
    | inr free ↦ elim (Bool-cases event.alt) [
      | inl alt ↦ rw (other, free, alt) (alt_key-IsValid fs event.key b valid)
      | inr plain ↦ rw (other, free, plain) (plain_key-IsValid fs event.key b valid)
    ]
  ]
]

handle-IsValid : (fs : FileSystem) (e : Event) (b : Browser) → IsValid b → IsValid (handle fs e b)
unfolding handle
handle-IsValid fs Event.back_clicked b valid = go_back-IsValid fs b valid
handle-IsValid fs Event.forward_clicked b valid = go_forward-IsValid fs b valid
handle-IsValid fs Event.up_clicked b valid = open_parent-IsValid fs b valid
handle-IsValid fs (Event.key_pressed key) b valid = on_key_down-IsValid fs key b valid
handle-IsValid fs (Event.crumb_clicked path) b valid = navigate-IsValid fs path none b valid
handle-IsValid fs (Event.search_changed text) b valid = search-IsValid text b valid
handle-IsValid fs (Event.row_selected row) b valid = select_row-IsValid row b valid
handle-IsValid fs (Event.row_activated row) b valid = open_entry-IsValid fs row b valid
handle-IsValid fs (Event.place_activated row) b valid = open_place-IsValid fs row b valid

-- The file system may answer otherwise at each event.
pub data Reach : Browser → Type 0 where
  created : (fs : FileSystem) → Reach (on_create fs)
  stepped : (fs : FileSystem) (e : Event) (b : Browser) → Reach b → Reach (handle fs e b)

on_create-IsValid : (fs : FileSystem) → IsValid (on_create fs)
unfolding on_create
on_create-IsValid fs = load_directory-IsValid fs none _ (record {
  current = omega arith;
  back = tt;
  forward = tt;
  back_bound = omega arith;
  forward_bound = omega arith;
})

-- Whatever the user does and the file system answers, the paths fit in their arrays and the stacks
-- in theirs, the rows are the entries that contain the search text, each once and in their order, of
-- at most `max_entries` entries, the selected row is one of them, and each button can be used when
-- there is somewhere to go.
pub Reach-IsValid : (b : Browser) → Reach b → IsValid b
Reach-IsValid _ (Reach.created fs) = on_create-IsValid fs
Reach-IsValid _ (Reach.stepped fs e b reach) = handle-IsValid fs e b (Reach-IsValid b reach)
