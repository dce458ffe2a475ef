-- ===== src/G2util/Graceful/Signals.antt =====
-- Which signals end the program.
use gof.Base.{
  ◌≡◌, refl, sym, ap, ◌∙◌, ◌⊎◌, inl, inr, true, false, List, [], ◌∷◌, ◌++◌, append-nil, arith,
  Bool-cases, All,
}
use gof.G2util.Graceful.{
  Graceful, Signal, sigint, sigquit, sigterm, sigusr1, sigurg, sigpipe, sigchld, unknown, waiting,
  shut, left, Arrival, delivered, read_signals, start_signal, shutdown_action,
}

-- signals that the loop reads and goes on
abbrev pub IsIgnored : Signal → Type 0
IsIgnored sigint = ⊥
IsIgnored sigquit = ⊥
IsIgnored sigterm = ⊥
IsIgnored sigusr1 = ⊥
IsIgnored sigurg = Unit
IsIgnored sigpipe = Unit
IsIgnored sigchld = Unit
IsIgnored (unknown n) = Unit

read_signals_ignored :
    (g : Graceful) (before after : List Signal)
    → All IsIgnored before
    → read_signals g (before ++ after) ≡ read_signals g after
unfolding read_signals
read_signals_ignored g [] after _ = refl
read_signals_ignored g (sigint ∷ ss) after (h, hs) = elim h [ ]
read_signals_ignored g (sigquit ∷ ss) after (h, hs) = elim h [ ]
read_signals_ignored g (sigterm ∷ ss) after (h, hs) = elim h [ ]
read_signals_ignored g (sigusr1 ∷ ss) after (h, hs) = elim h [ ]
read_signals_ignored g (sigurg ∷ ss) after (h, hs) = read_signals_ignored g ss after hs
read_signals_ignored g (sigpipe ∷ ss) after (h, hs) = read_signals_ignored g ss after hs
read_signals_ignored g (sigchld ∷ ss) after (h, hs) = read_signals_ignored g ss after hs
read_signals_ignored g (unknown n ∷ ss) after (h, hs) = read_signals_ignored g ss after hs

-- The first signal that is not ignored decides: SIGINT, SIGQUIT and SIGTERM shut down, SIGUSR1
-- returns without, and as long as there is none the loop waits.
pub read_signals_decides :
    (g : Graceful) (before after : List Signal)
    → All IsIgnored before
    → (read_signals g before ≡ waiting)
      × (read_signals g (before ++ sigusr1 ∷ after) ≡ left)
      × (read_signals g (before ++ sigint ∷ after) ≡ shut (shutdown_action g))
      × (read_signals g (before ++ sigquit ∷ after) ≡ shut (shutdown_action g))
      × (read_signals g (before ++ sigterm ∷ after) ≡ shut (shutdown_action g))
unfolding read_signals
read_signals_decides g before after h = (
  ap (read_signals g) (sym (append-nil before)) ∙ read_signals_ignored g before [] h,
  read_signals_ignored g before (sigusr1 ∷ after) h,
  read_signals_ignored g before (sigint ∷ after) h,
  read_signals_ignored g before (sigquit ∷ after) h,
  read_signals_ignored g before (sigterm ∷ after) h,
)

-- signals that are dropped, or that the loop reads and goes on
abbrev pub IsPassed : Arrival → Type 0
IsPassed a = (a.is_awaited ≡ false) ⊎ IsIgnored a.signal

delivered-append : (xs ys : List Arrival) → delivered (xs ++ ys) ≡ delivered xs ++ delivered ys
unfolding delivered
delivered-append [] ys = refl
delivered-append (x ∷ xs) ys = ground (arith, delivered-append xs ys)

delivered-IsIgnored : (xs : List Arrival) → All IsPassed xs → All IsIgnored (delivered xs)
unfolding delivered
delivered-IsIgnored [] h = tt
delivered-IsIgnored (x ∷ xs) (h, hs) = elim (Bool-cases x.is_awaited) [
  | inr f ↦ rw f (delivered-IsIgnored xs hs)
  | inl t ↦ rw t (
    elim h [ inl f ↦ (let bad : true ≡ false = sym t ∙ f in cc) | inr i ↦ i ],
    delivered-IsIgnored xs hs,
  )
]

-- Behind signals that are dropped or ignored, the first one among SIGINT, SIGQUIT and SIGTERM that the
-- loop waits for shuts down.
pub start_signal-shut :
    (g : Graceful) (before after : List Arrival) (sig : Arrival)
    → All IsPassed before
    → sig.is_awaited ≡ true
    → (sig.signal ≡ sigint) ⊎ (sig.signal ≡ sigquit) ⊎ (sig.signal ≡ sigterm)
    → start_signal g (before ++ sig ∷ after) ≡ shut (shutdown_action g)
start_signal-shut g before after sig ign waits which =
    let decided =
      read_signals_decides g (delivered before) (delivered after)
        (delivered-IsIgnored before ign) in
    let reads : delivered (before ++ sig ∷ after)
        ≡ delivered before ++ sig.signal ∷ delivered after =
      delivered-append before (sig ∷ after)
      ∙ ap (λ l. delivered before ++ l) (unfold delivered in ground (arith, waits)) in
    let shuts : read_signals g (delivered before ++ sig.signal ∷ delivered after)
        ≡ shut (shutdown_action g) =
      elim which [
        | inl q ↦ rw q decided.2
        | inr (inl q) ↦ rw q decided.3
        | inr (inr q) ↦ rw q decided.4
      ] in
    unfold start_signal in ap (read_signals g) reads ∙ shuts
