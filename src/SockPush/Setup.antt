-- ===== src/SockPush/Setup.antt =====
-- What sp_open of main/sockpush.c leaves behind.
use mathlib.Core.List.{reverse}
use otdb.Base.{◌≡◌, ◌≢◌, refl, [], Bool, not, ◌&&◌, true, ◌⊎◌, inl, inr, arith}
use otdb.Base.Branch.{if-both}
use otdb.Base.Int.{pos}
use otdb.SockPush.{Outcomes, Opening, cleanup, fails, sp_open, sp_close}

-- Either all that sp_close releases is held, or nothing is.
abbrev pub IsSettled : Opening → Type 0
IsSettled r =
    ((r.rc ≡ pos 0) × (r.released ≡ []) × ((sp_close true true).1 ≡ reverse r.acquired))
    ⊎ ((r.rc ≢ pos 0) × (r.released ≡ reverse r.acquired))

-- Whichever call of sp_open fails: with an error it has released all that it had acquired, in reverse
-- order; without one it has released nothing, and holds what sp_close releases, in reverse order.
pub sp_open-IsSettled : (handle path : Bool) (o : Outcomes) → IsSettled (sp_open handle path o)
unfolding sp_open fails cleanup sp_close
sp_open-IsSettled handle path o =
    let P = IsSettled in
    if-both P (not (handle && path)) _ _ (λ _. inr (ground arith, refl))
      λ _.
        if-both P (not o.allocated) _ _ (λ _. inr (ground arith, refl))
          λ _.
            if-both P (not o.is_socket) _ _ (λ _. inr (ground arith, refl))
              λ _.
                if-both P (not o.opened) _ _ (λ _. inr (ground arith, refl))
                  λ _.
                    if-both P (not o.user) _ _ (λ _. inr (ground arith, refl))
                      λ _.
                        if-both P (not o.line_mutex) _ _ (λ _. inr (ground arith, refl))
                          λ _.
                            if-both P (not o.line_cond) _ _ (λ _. inr (ground arith, refl))
                              λ _.
                                if-both P (not o.done_mutex) _ _ (λ _. inr (ground arith, refl))
                                  λ _.
                                    if-both P (not o.done_cond) _ _ (λ _. inr (ground arith, refl))
                                      λ _.
                                        if-both P (not o.started) _ _
                                          (λ _. inr (ground arith, refl))
                                          λ _. inl (refl, refl, refl)
