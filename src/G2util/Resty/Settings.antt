-- ===== src/G2util/Resty/Settings.antt =====
-- What the settings of the HTTP client keep of one another.
use gof.Base.{
  ℕ, zero, suc, ◌<◌, ◌≡◌, refl, true, some, List, [], ◌∷◌, arith, if◌then◌else◌, length, get_elem?,
  Text,
}
use gof.Base.Int.{ℤ, ltb_int, ◌≤ℤ◌}
use gof.Fault.{ok}
use gof.G2util.Resty.{
  Client, Proxies, direct, through, create_dialer, seconds, set_dial_timeout, set_proxy,
  rand_useragent, user_agents,
}

module _ {U I P : Type 0} (procs : ℕ) (x : Proxies U I P) (url : Text) (user : I) where
  -- Of a timeout and a proxy that can be used only the last one that was set is kept. A timeout makes
  -- the client dial without the proxy that was set before, at that timeout, or at a second if it is
  -- shorter; and the proxy is used with the timeout of 20 seconds that a new dialer has.
  pub last_setting_kept :
      (d : ℤ) (u : U) (p : P) (c : Client P)
      → x.parse url ≡ ok u
      → x.from_url (x.with_user user u) create_dialer ≡ ok p
      → x.is_context_dialer p ≡ true
      → (set_dial_timeout procs d (set_proxy procs x url user c) ≡ set_dial_timeout procs d c)
        × (set_proxy procs x url user (set_dial_timeout procs d c) ≡ set_proxy procs x url user c)
        × ((t : ℤ) × (seconds 1 ≤ℤ d → t ≡ d)
            × (d ≤ℤ seconds 1 → t ≡ seconds 1)
            × ((set_dial_timeout procs d c).transport.dial_context
                ≡ direct (record create_dialer { timeout = t })))
        × ((set_proxy procs x url user c).transport.dial_context ≡ through p)
  unfolding set_dial_timeout set_proxy
  last_setting_kept d u p c e f g = (
    ground (arith, e, f, g),
    ground (arith, e, f, g),
    (
      (if ltb_int d (seconds 1) then seconds 1 else d),
      (λ h. ground (arith, h)),
      (λ h. ground (arith, h)),
      refl,
    ),
    ground (arith, e, f, g),
  )

-- The list of user agents is never left.
rand_useragent_found :
    (rand : ℕ → ℕ) → ((n : ℕ) → 0 < n → rand n < n) → (t : Text) × (rand_useragent rand ≡ some t)
unfolding rand_useragent
rand_useragent_found rand h = found user_agents (rand (length user_agents)) (h 6 (omega arith))
  where
    found : (l : List Text) (i : ℕ) → i < length l → (t : Text) × (get_elem? l i ≡ some t)
    found [] i h = absurd (omega arith)
    found (a ∷ l) zero h = (a, refl)
    found (a ∷ l) (suc i) h = found l i (omega arith)
