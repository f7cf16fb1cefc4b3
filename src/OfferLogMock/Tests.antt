-- ===== src/OfferLogMock/Tests.antt =====
-- The fixture that can be used is used.
use psr_pl.Base.{String, true, some, ◌≡◌, refl}
use psr_pl.OfferLogMock.Store.{cell, active_fixture, new_store, resolve, set_status}
use psr_pl.OfferLogMock.Paired.{started, set_status_seen}

abbrev random : String × String
random = ("0a1b2c3d", "4e5f6071")

set_status_seen_test :
    let (found, after) = set_status "intake-fixture-active" "USED" new_store in
    (found ≡ true)
    × (resolve "VALID-INVITE-123" random after ≡ (some 0, after))
    × (cell after.heap 0 ≡ some (record active_fixture { status = "USED" }))
set_status_seen_test =
    set_status_seen "VALID-INVITE-123" "USED" random new_store 0 active_fixture started refl refl
