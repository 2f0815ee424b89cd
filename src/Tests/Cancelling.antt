-- ===== src/Tests/Cancelling.antt =====
-- The theorems on cancellation, applied to the small book.
use oktrading.Prelude.{◌≡◌, ◌⊎◌, Option, none, some}
use oktrading.Types.{Order, status_cancelled}
use oktrading.OrderBook.Book.{bid, OrderLoc, OrderBook}
use oktrading.OrderBook.Rest.{add_order, cancel_order}
use oktrading.OrderBook.Rest.Cancel.{Cancels, cancel_order_lem}
use oktrading.OrderBook.Rest.Undo.{Restores, cancel_order-add_order}
use oktrading.Tests.Books.{
  sample, sample-IsBook, three_asks, three_asks-IsBook, only_bid, only_bid-IsRestable,
}

-- The order 2 is the second of its level.
cancel_order_lem_example :
    ((sample.orders 2 ≡ none) × (cancel_order 2 sample ≡ some (none, sample)))
    ⊎ ((loc : OrderLoc) × (sample.orders 2 ≡ some loc)
        × ((r : Option Order × OrderBook) × (cancel_order 2 sample ≡ some r)
            × Cancels 2 loc.half sample r))
cancel_order_lem_example = cancel_order_lem 2 sample sample-IsBook

cancel_order-add_order_example :
    (b' : OrderBook) × (cancel_order 4 (add_order only_bid three_asks).1
      ≡ some (some (record only_bid { status = status_cancelled }), b'))
    × Restores three_asks b'
cancel_order-add_order_example =
    cancel_order-add_order bid only_bid three_asks three_asks-IsBook only_bid-IsRestable
