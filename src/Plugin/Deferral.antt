-- ===== src/Plugin/Deferral.antt =====
-- A shutdown of the plugin waits for the end of every call into Lua, and is not lost.
use vcmp_lua.World.{in_lua_call, World}
use vcmp_lua.Runtime.{ShutdownReason, shutdown}
use vcmp_lua.Plugin.{server, after_callback, finish_shutdown, on_server_shutdown, Plugin}
use vcmp_lua.Prelude.{sym, ◌∙◌, refl, arith, not, false, if_cases, true, ◌&&◌, Bool, ◌≡◌}

module _ {H : Type 0} (p : Plugin H) where
  shutdown-runtime :
      (reason : ShutdownReason) (w : World H) → (shutdown p.lua p.api reason w).runtime ≡ w.runtime
  unfolding shutdown
  shutdown-runtime reason w =
      if_cases (λ (v : World H). v.runtime ≡ w.runtime) (not w.has_lua) _ _ (λ _. refl)
        λ _.
          if_cases (λ (v : World H). v.runtime ≡ w.runtime) (in_lua_call w) _ _ (λ _. refl)
            λ _.
              if_cases (λ (v : World H). v.runtime ≡ w.runtime) w.invoker.dead _ _ (λ _. refl)
                λ _. refl

  -- A finished shutdown leaves no runtime, and no shutdown to finish.
  pub finish_shutdown-ends :
      (w : World H)
      → ((finish_shutdown p w).runtime ≡ false) × ((finish_shutdown p w).shutdown_deferred ≡ false)
  unfolding finish_shutdown
  finish_shutdown-ends w =
      if_cases (λ (v : World H). (v.runtime ≡ false) × (v.shutdown_deferred ≡ false))
        (not w.runtime) _ _ (λ h. (ground (arith, h), refl)) λ _. (shutdown-runtime server _, refl)

  -- A shutdown that is still to be done at a runtime that runs no Lua.
  abbrev pub is_overdue : World H → Bool
  is_overdue w = w.shutdown_deferred && w.runtime && not (in_lua_call w)

  -- After the end of a callback no deferred shutdown is left at a runtime that runs no Lua.
  pub after_callback-settles : (w : World H) → is_overdue (after_callback p w) ≡ false
  unfolding after_callback
  after_callback-settles w =
      if_cases (λ (v : World H). is_overdue v ≡ false) (is_overdue w) (finish_shutdown p w) w
        (λ _. let ended = finish_shutdown-ends w in ground (arith, ended.0, ended.1)) (λ h. h)

  pub after_callback-inside : (w : World H) → in_lua_call w ≡ true → after_callback p w ≡ w
  unfolding after_callback
  after_callback-inside w h = ground (arith, h)

  -- After the server's shutdown of a plugin that has a runtime, the runtime is still there
  -- exactly if a call into Lua is active, and exactly then the shutdown is marked as deferred.
  pub on_server_shutdown-defers :
      (w : World H)
      → w.runtime ≡ true
      → ((on_server_shutdown p w).runtime ≡ in_lua_call w)
        × ((on_server_shutdown p w).shutdown_deferred ≡ in_lua_call w)
  unfolding on_server_shutdown
  on_server_shutdown-defers w r =
      if_cases Answers (not w.runtime) _ _ (λ h. absurd (ground (arith, h, r)))
        λ _.
          if_cases Answers (in_lua_call w) _ _ (λ inside. (r ∙ sym inside, sym inside))
            λ outside.
              ((finish_shutdown-ends w).0 ∙ sym outside, (finish_shutdown-ends w).1 ∙ sym outside)
    where
      Answers : World H → Type 0
      Answers v = (v.runtime ≡ in_lua_call w) × (v.shutdown_deferred ≡ in_lua_call w)
