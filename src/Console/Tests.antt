-- ===== src/Console/Tests.antt =====
-- Examples for src/server/console.cpp.
use w3m.Prelude.{◌<◌, ◌≡◌, ◌⊎◌, ◌++◌, [], ◌∷◌, arith, length, take, codes}
use w3m.Prelude.Outcome.{returns, undefined}
use w3m.Console.{log_debug, log}
use w3m.Console.Colors.{plainly, log_lem}

log_lem_example :
    ((length (codes "a") < 0x1000)
      × (log (codes "a") ≡ returns (plainly log_debug (codes "[*] " ++ (codes "a" ++ (10 ∷ []))))))
    ⊎ (((length (codes "a") ≡ 0x1000)
          × (log (codes "a")
              ≡ returns (
                  plainly log_debug
                    (codes "[*] " ++ ((take 0xFFF (codes "a") ++ (0 ∷ [])) ++ (10 ∷ []))))))
        ⊎ ((0x1000 < length (codes "a")) × (log (codes "a") ≡ undefined)))
log_lem_example = log_lem (codes "a") (λ e. absurd (omega arith), tt)
