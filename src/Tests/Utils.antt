-- ===== src/Tests/Utils.antt =====
-- Numbers with commas, retries, query values and pages.
use vnst_be.Base.{ℕ, zero, suc, ◌≡◌, refl, none, List, [], ◌∷◌, txt, Io, ok, thrown, error}
use vnst_be.Utils.Format.{add_commas}
use vnst_be.Utils.CommasLaws.{without_commas, IsGrouped, without_commas-add_commas}
use vnst_be.Utils.Retry.{retry}
use vnst_be.Utils.RetryLaws.{Ending, retry-Ending}
use vnst_be.Utils.Pagination.{PaginationQuery}
use vnst_be.Tests.World.{outside, world, World}

without_commas-add_commas_example :
    (without_commas (add_commas (txt "1234567")) ≡ txt "1234567")
    × IsGrouped (txt "1234567") (add_commas (txt "1234567"))
without_commas-add_commas_example =
    without_commas-add_commas (txt "1234567")
      (refl, (refl, (refl, (refl, (refl, (refl, (refl, tt)))))))

-- A call that fails until the counter of sent mails is two.
abbrev flaky : Io World ℕ
flaky w = elim w.sent [
  | zero ↦ thrown (error []) (record w { sent = 1 })
  | suc zero ↦ thrown (error (txt "again")) (record w { sent = 2 })
  | suc (suc n) ↦ ok 5 w
]

retry-Ending_example :
    Ending outside.timer flaky 10 3 world
      (retry outside.timer flaky (record { retries = 3; delay = 10 }) world)
retry-Ending_example =
    retry-Ending outside.timer flaky (record { retries = 3; delay = 10 }) (λ v. (v, refl)) world

abbrev query : PaginationQuery
query = record { page = 1; limit = 2; skip = 0; sort = none }

abbrev rows : List ℕ
rows = 1 ∷ 2 ∷ 3 ∷ 4 ∷ 5 ∷ []
