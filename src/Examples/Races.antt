-- ===== src/Examples/Races.antt =====
-- Two sessions of one client whose goroutines interleave.
use passage.Base.{ℕ, codes, [], ◌∷◌, ◌≡◌, ◌⊎◌, refl, true, Map, lookup, insert, same}
use passage.Examples.Handshakes.{alice, web, web_entry}
use passage.Config.Types.{ServiceEntry}
use passage.Tunnel.Sessions.{put, replace_session, remove_session}
use passage.Tunnel.Sessions.Replacement.{IsShut}
use passage.Tunnel.Sessions.Interleaving.{
  System, Step, Reach, boot, enter, goto, modify, here, next, enters, waits, hangs_up, wakes, ends,
  removes, closes, removed, hung_up, on_session, cancel, close_yam, ended, waiting, leaving,
}
use passage.Tunnel.Sessions.Interleaving.Registry.{IsReplaced, IsRemoved, one_live_session}
use passage.Tunnel.Sessions.Interleaving.Addresses.{ended-IsShut}
use passage.Tunnel.Sessions.Interleaving.Leases.{Change, actor, view, Step-Change}

abbrev allowed : Map (Map ServiceEntry)
allowed = (alice, (web, web_entry) ∷ []) ∷ []

abbrev entered : System
entered = enter 1 64 alice (codes "s1") (web ∷ []) boot

first_enters : Step allowed boot entered
first_enters = enters boot 1 64 alice (codes "s1") (web ∷ []) refl

Step-Change_example : Change (actor allowed first_enters) (view boot) (view entered)
Step-Change_example = Step-Change allowed first_enters

abbrev both : System
both = enter 2 64 alice (codes "s2") (web ∷ []) entered

second_enters : Reach allowed both
unfolding enter goto replace_session put
second_enters =
    next (next here first_enters) (enters entered 2 64 alice (codes "s2") (web ∷ []) refl)

one_live_session_example :
    (◌≡◌ {A = ℕ} 1 2)
    ⊎ ((IsReplaced both 1 ⊎ IsRemoved (both.pc 1)) ⊎ (IsReplaced both 2 ⊎ IsRemoved (both.pc 2)))
unfolding enter goto replace_session put lookup insert same
one_live_session_example = one_live_session allowed 1 2 second_enters tt tt refl refl refl

-- A session without services, from its start to its end.
abbrev quiet : System
quiet = enter 1 64 alice (codes "s1") [] boot

abbrev idle : System
idle = record quiet { pc = goto quiet.pc 1 waiting }

abbrev left : System
left = modify 1 (record (idle.state.store 1) { yam_closed = true }) (idle.pc 1) idle

abbrev woken : System
woken = record left { pc = goto left.pc 1 leaving }

abbrev taken : System
taken = record {
  state = remove_session (woken.state.store 1).client_id 1 woken.state;
  pc = goto woken.pc 1 removed;
}

abbrev closed : System
closed = record { state = on_session 1 close_yam taken.state; pc = goto taken.pc 1 hung_up }

abbrev gone : System
gone = record { state = on_session 1 cancel closed.state; pc = goto closed.pc 1 ended }

whole_run : Reach allowed gone
unfolding enter goto replace_session put lookup same modify
whole_run =
    let started = next here (enters boot 1 64 alice (codes "s1") [] refl) in
    let waited = next started (waits quiet 1 refl) in
    let hung_up = next waited (hangs_up idle 1 tt) in
    let took = next (next hung_up (wakes left 1 refl refl)) (removes woken 1 refl) in
    next (next took (closes taken 1 refl)) (ends closed 1 refl)

ended-IsShut_example : IsShut (gone.state.store 1)
unfolding goto
ended-IsShut_example = ended-IsShut allowed 1 whole_run refl
