-- ===== src/Tests/Printing.antt =====
-- The theorem on printed reasons, applied to the rejection of a fill-or-kill order.
use oktrading.Prelude.{◌≡◌, ◌≤◌, refl, none, String, codes, length, take}
use oktrading.Types.{evt_order_rejected}
use oktrading.Offheap.{reason_event}
use oktrading.Demo.{printed_reason}
use oktrading.Demo.Reason.{reason_printed}

abbrev too_little : String
too_little = "insufficient liquidity for FOK"

reason_printed_example :
    (printed_reason (reason_event evt_order_rejected 7 none too_little)
      ≡ take 31 (codes too_little))
    × (length (codes too_little) ≤ 31
        → printed_reason (reason_event evt_order_rejected 7 none too_little) ≡ codes too_little)
reason_printed_example = reason_printed evt_order_rejected 7 none too_little refl

-- The reason of a refused cancellation loses its last letter.
cut_off :
    printed_reason (reason_event evt_order_rejected 7 none "cancel rejected: order not found")
    ≡ codes "cancel rejected: order not foun"
cut_off = (reason_printed evt_order_rejected 7 none "cancel rejected: order not found" refl).0
