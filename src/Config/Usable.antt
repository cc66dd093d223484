-- ===== src/Config/Usable.antt =====
-- internal/config/config.go: what the rest of core can count on of a configuration.
use suctl.Prelude.{
  ℕ, String, ℤ, pos, is_positive, ◌≡◌, refl, true, false, Option, ◌==◌, inl, inr, Bool-cases,
  Option-cases,
}
use suctl.Config.{
  Config, defaults, text_or, positive_or, restore, apply, load_from, default_logo_url,
  default_contact_url,
}

-- Every text is there and every limit is positive.
pub record IsUsable (c : Config) : Type 0 where
  pub logo : (c.logo_url == "") ≡ false
  pub contact : (c.contact_url == "") ≡ false
  pub health : is_positive c.health_max_restarts ≡ true
  pub handshake : is_positive c.handshake_timeout_seconds ≡ true
  pub interval : is_positive c.health_check_interval_seconds ≡ true
  pub threshold : is_positive c.health_fail_threshold ≡ true
  pub hook : is_positive c.hook_timeout_seconds ≡ true
  pub restarts : is_positive c.supervisor_max_restarts ≡ true
  pub window : is_positive c.supervisor_restart_window_seconds ≡ true
  pub stop : is_positive c.supervisor_stop_timeout_seconds ≡ true
  pub admit : is_positive c.admit_timeout_seconds ≡ true

positive_or-positive :
    (fallback : ℕ) (n : ℤ)
    → is_positive (pos fallback) ≡ true
    → is_positive (positive_or fallback n) ≡ true
positive_or-positive fallback n h = elim (Bool-cases (is_positive n)) [
  | inl p ↦ rw (p, p)
  | inr q ↦ rw (q, h)
]

text_or-present :
    (fallback text : String) → (fallback == "") ≡ false → (text_or fallback text == "") ≡ false
text_or-present fallback text h = elim (Bool-cases (text == "")) [ inl p ↦ rw p h | inr q ↦ rw q q ]

restore-IsUsable : (c : Config) → IsUsable (restore c)
unfolding restore
restore-IsUsable c = record {
  logo = text_or-present default_logo_url c.logo_url refl;
  contact = text_or-present default_contact_url c.contact_url refl;
  health = positive_or-positive _ c.health_max_restarts refl;
  handshake = positive_or-positive _ c.handshake_timeout_seconds refl;
  interval = positive_or-positive _ c.health_check_interval_seconds refl;
  threshold = positive_or-positive _ c.health_fail_threshold refl;
  hook = positive_or-positive _ c.hook_timeout_seconds refl;
  restarts = positive_or-positive _ c.supervisor_max_restarts refl;
  window = positive_or-positive _ c.supervisor_restart_window_seconds refl;
  stop = positive_or-positive _ c.supervisor_stop_timeout_seconds refl;
  admit = positive_or-positive _ c.admit_timeout_seconds refl;
}

IsUsable-restore : (c : Config) → IsUsable c → restore c ≡ c
unfolding restore
IsUsable-restore c u =
    rw
      (
        u.logo, u.contact, u.health, u.handshake, u.interval, u.threshold, u.hook, u.restarts,
        u.window, u.stop, u.admit,
      )
      refl

-- Whatever the file holds and whatever the decoder makes of it, a loaded configuration has both
-- texts and only positive limits, and restoring the defaults once more changes nothing.
pub load_from-IsUsable :
    (read : String → Option String) (unmarshal : String → Config → Config) (path : String)
    → IsUsable (load_from read unmarshal path)
      × (restore (load_from read unmarshal path) ≡ load_from read unmarshal path)
load_from-IsUsable read unmarshal path = (usable, IsUsable-restore _ usable)
  where
    usable : IsUsable (load_from read unmarshal path)
    usable =
        unfold load_from apply in
        elim (Option-cases (read path)) [
          | inl e ↦ rw (e, load_from) (unfold restore in restore-IsUsable defaults)
          | inr (text, e) ↦ rw (e, load_from) (restore-IsUsable (unmarshal text defaults))
        ]
