-- ===== src/G2util/Graceful/Order.antt =====
-- The order of a shutdown.
use mathlib.Core.List.{Perm, perm_middle}
use mathlib.Core.List.Perm
use mathlib.Core.Path.{subst}
use gof.Base.{
  ◌≡◌, sym, inl, inr, Bool, true, false, List, [], ◌∷◌, ◌++◌, map, append_assoc, append-nil, arith,
  if◌then◌else◌, Bool-cases,
}
use gof.G2util.Graceful.{Process, Graceful, Start, server, process, first_loop, shutdown_action}

-- the processes that are writers, or that are none, in the order of the list
unfoldable pub keep : Bool → List Process → List Process
keep b [] = []
keep b (p ∷ ps) =
    let rest = keep b ps in
    elim p.is_writer [
      | true ↦ (if b then p ∷ rest else rest)
      | false ↦ (if b then rest else p ∷ rest)
    ]

first_loop-keep :
    (ps : List Process) (trace : List Start) (held : List Process)
    → first_loop ps trace held ≡ (trace ++ map process (keep false ps), held ++ keep true ps)
unfolding first_loop keep
first_loop-keep [] trace held = ground (arith, append-nil trace, append-nil held)
first_loop-keep (p ∷ ps) trace held = ground (
  arith,
  first_loop-keep ps (trace ++ process p ∷ []) held,
  first_loop-keep ps trace (held ++ p ∷ []),
  append_assoc trace (process p ∷ []) (map process (keep false ps)),
  append_assoc held (p ∷ []) (keep true ps),
)

-- A shutdown starts the servers first, then every process that is no writer, then the writers, each
-- group in the order of registration.
pub shutdown_action-keep :
    (g : Graceful)
    → shutdown_action g
      ≡ map server g.srv_list
        ++ (map process (keep false g.process_list) ++ map process (keep true g.process_list))
unfolding shutdown_action
shutdown_action-keep g = ground (
  arith,
  first_loop-keep g.process_list (map server g.srv_list) [],
  append_assoc (map server g.srv_list) (map process (keep false g.process_list))
      (map process (keep true g.process_list)),
)

-- Both groups together are the registered processes: none is left out and none starts twice.
pub keep-perm : (ps : List Process) → Perm (keep false ps ++ keep true ps) ps
keep-perm [] = unfold keep in Perm.refl []
keep-perm (p ∷ ps) = added p ps (keep-perm ps)
  where
    added :
        (q : Process) (qs : List Process)
        → Perm (keep false qs ++ keep true qs) qs
        → Perm (keep false (q ∷ qs) ++ keep true (q ∷ qs)) (q ∷ qs)
    added q qs h = elim (Bool-cases q.is_writer) [
      | inl t ↦
          subst (λ l. Perm l (q ∷ qs)) {x = keep false qs ++ q ∷ keep true qs}
            (sym (unfold keep in ground (arith, t)))
            (Perm.trans (perm_middle (keep false qs) (keep true qs)) (Perm.cons q h))
      | inr f ↦
          subst (λ l. Perm l (q ∷ qs)) {x = q ∷ (keep false qs ++ keep true qs)}
            (sym (unfold keep in ground (arith, f))) (Perm.cons q h)
    ]
