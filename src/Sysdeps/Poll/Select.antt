-- ===== src/Sysdeps/Poll/Select.antt =====
-- The descriptors that pselect waits for, in sysdeps.cpp of outside/mlibc-sysdeps.
use i_user_apps.Common.{
  ℕ, zero, suc, ◌+◌, ◌-◌, ◌≤◌, ◌<◌, ◌≡◌, refl, sym, ap, inl, inr, true, false, Option, none, some,
  List, [], ◌∷◌, map, arith, ltb, ◌==◌, if◌then◌else◌, ltb→lt, Bool-cases, get_elem?, take, All,
}
use i_user_apps.Sysdeps.FdTable.{handle_for_fd}
use i_user_apps.Sysdeps.Kernel.{is_negative64}
use i_user_apps.Sysdeps.Poll.{FdSet, Watched, wanted_events, add_watched, watch_fds, max_polled}

-- The descriptors from `fd` on, `left` of them, of which an event is wanted.
unfoldable pub wanted : FdSet → FdSet → ℕ → ℕ → List ℕ
wanted read_set write_set zero fd = []
wanted read_set write_set (suc left) fd =
    let rest = wanted read_set write_set left (fd + 1) in
    if wanted_events read_set write_set fd == 0 then rest else fd ∷ rest

-- A loop that ended well, after `n` descriptors: the first ones that are wanted, and no more than fit.
pub data Watches (fds : List ℕ) (read_set write_set : FdSet) (left fd n : ℕ)
    : Option (List Watched) → Type 0 where
  watches :
      (ws : List Watched)
      → map Watched.fd ws ≡ take (max_polled - n) (wanted read_set write_set left fd)
      → All
          (λ w.
            (w.handle ≡ handle_for_fd fds w.fd)
            × (w.events ≡ wanted_events read_set write_set w.fd))
          ws
      → Watches fds read_set write_set left fd n (some ws)
  bad_fd :
      (i k : ℕ)
      → get_elem? (take (max_polled - n) (wanted read_set write_set left fd)) i ≡ some k
      → is_negative64 (handle_for_fd fds k) ≡ true
      → Watches fds read_set write_set left fd n none

-- A descriptor of which nothing is wanted changes nothing.
skip_fd :
    (fds : List ℕ) (read_set write_set : FdSet) (left fd n : ℕ) {o : Option (List Watched)}
    → (wanted_events read_set write_set fd == 0) ≡ true
    → Watches fds read_set write_set left (fd + 1) n o
    → Watches fds read_set write_set (suc left) fd n o
unfolding wanted
skip_fd fds read_set write_set left fd n unwanted (watches ws e all) =
    watches ws (rw unwanted e) all
skip_fd fds read_set write_set left fd n unwanted (bad_fd i k at bad) =
    bad_fd i k (rw unwanted at) bad

room_left : (n : ℕ) → n < max_polled → max_polled - n ≡ suc (max_polled - (n + 1))
room_left n h = omega (arith, h)

take_fd :
    (fds : List ℕ) (read_set write_set : FdSet) (left fd n : ℕ) {o : Option (List Watched)}
    → (wanted_events read_set write_set fd == 0) ≡ false
    → n < max_polled
    → Watches fds read_set write_set left (fd + 1) (n + 1) o
    → Watches fds read_set write_set (suc left) fd n (
        add_watched
          (record {
            fd = fd;
            handle = handle_for_fd fds fd;
            events = wanted_events read_set write_set fd;
          })
          o)
unfolding wanted add_watched
take_fd fds read_set write_set left fd n want room (watches ws e all) =
    watches
      (record {
        fd = fd;
        handle = handle_for_fd fds fd;
        events = wanted_events read_set write_set fd;
      }
        ∷ ws)
      (rw (want, room_left n room) (ap (λ t. fd ∷ t) e)) ((refl, refl), all)
take_fd fds read_set write_set left fd n want room (bad_fd i k at bad) =
    bad_fd (suc i) k (rw (want, room_left n room) at) bad

-- The descriptors that are waited for are the first 64 of those of which an event is wanted, each with
-- its handle and its events; the loop fails only if one of these has no handle.
pub watch_fds-Watches :
    (fds : List ℕ) (read_set write_set : FdSet) (left fd n : ℕ)
    → n ≤ max_polled
    → Watches fds read_set write_set left fd n (watch_fds fds read_set write_set left fd n)
unfolding watch_fds wanted
watch_fds-Watches fds read_set write_set zero fd n few =
    watches [] (sym (take_none (max_polled - n))) tt
  where
    take_none : (m : ℕ) → take {A = ℕ} m [] ≡ []
    take_none zero = refl
    take_none (suc m) = refl
watch_fds-Watches fds read_set write_set (suc left) fd n few =
    elim (Bool-cases (ltb n max_polled)) [
      | inr full ↦
          let none_left : max_polled - n ≡ 0 = ground (arith, full) in
          rw full (watches [] (rw none_left refl) tt)
      | inl room ↦
          let few_more : n < max_polled = ltb→lt n max_polled room in
          elim (Bool-cases (wanted_events read_set write_set fd == 0)) [
            | inl unwanted ↦
                rw (room, unwanted)
                  (skip_fd fds read_set write_set left fd n unwanted
                    (watch_fds-Watches fds read_set write_set left (fd + 1) n few))
            | inr want ↦ elim (Bool-cases (is_negative64 (handle_for_fd fds fd))) [
              | inl bad ↦
                  rw (room, want, bad) (bad_fd 0 fd (rw (want, room_left n few_more) refl) bad)
              | inr usable ↦
                  rw (room, want, usable)
                    (take_fd fds read_set write_set left fd n want few_more (
                      watch_fds-Watches fds read_set write_set left (fd + 1) (n + 1)
                        (omega (arith, few_more))))
            ]
          ]
    ]
