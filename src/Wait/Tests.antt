-- ===== src/Wait/Tests.antt =====
-- Calls of `sys_waitpid` on concrete children.
use oscomp_test_listline.Prelude.{
  ◌≡◌, ◌≢◌, ◌⊎◌, ◌↔◌, inl, inr, refl, List, [], ◌∷◌, none, some, true,
}
use oscomp_test_listline.Prelude.Int.{pos, negsuc}
use oscomp_test_listline.Errno.{ok, err, echild}
use oscomp_test_listline.Wait.{
  Process, Ends, Reply, returns, blocks, wait_pid, wnohang, sys_waitpid,
}
use oscomp_test_listline.Wait.Reaping.{
  Sometime, Reaped, NoneSelected, sys_waitpid_reaps, sys_waitpid_sound, sys_waitpid_echild,
  sys_waitpid-wnohang,
}

abbrev first : Process
first = record { pid = 5; pgid = 3; exit_signal = some 17 }

abbrev second : Process
second = record { pid = 6; pgid = 3; exit_signal = some 17 }

abbrev clone_child : Process
clone_child = record { pid = 7; pgid = 3; exit_signal = none }

abbrev family : List Process
family = clone_child ∷ first ∷ second ∷ []

abbrev nobody : Ends
nobody n = none

abbrev all_ended : Ends
all_ended n = some (pos 256)

-- The clone child is not selected without the option for it.
abbrev reply : Reply
reply = record { freed = some 5; stored = some (pos 256); value = 5 }

waits_then_reaps :
    sys_waitpid 3 family (negsuc 0) (ok true) 0 (nobody ∷ all_ended ∷ []) ≡ returns (ok reply)
unfolding sys_waitpid
waits_then_reaps = refl

sys_waitpid_reaps_example :
    sys_waitpid 3 family (negsuc 0) (ok true) 0 (all_ended ∷ []) ≡ returns (ok reply)
unfolding oscomp_test_listline.Wait.selects wait_pid
sys_waitpid_reaps_example =
    sys_waitpid_reaps 3 family (negsuc 0) true 0 all_ended [] first (pos 256)
      (inr (inl refl, inl (refl, refl, refl)))

sys_waitpid_sound_example :
    Sometime (Reaped (wait_pid 3 (negsuc 0)) 0 true family reply) (nobody ∷ all_ended ∷ [])
    ⊎ ((wnohang 0 ≡ true) × (reply ≡ record { freed = none; stored = none; value = 0 }))
sys_waitpid_sound_example =
    sys_waitpid_sound 3 family (negsuc 0) true 0 (nobody ∷ all_ended ∷ []) reply waits_then_reaps

sys_waitpid_echild_concrete :
    (sys_waitpid 3 family (pos 8) (ok true) 0 [] ≡ returns (err echild))
    ↔ NoneSelected (wait_pid 3 (pos 8)) 0 family
sys_waitpid_echild_concrete = sys_waitpid_echild 3 family (pos 8) true 0 []

sys_waitpid-wnohang_concrete : sys_waitpid 3 family (negsuc 0) (ok true) 1 (nobody ∷ []) ≢ blocks
sys_waitpid-wnohang_concrete = sys_waitpid-wnohang 3 family (negsuc 0) (ok true) 1 nobody [] refl
