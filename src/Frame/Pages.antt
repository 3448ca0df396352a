-- ===== src/Frame/Pages.antt =====
-- src/frame.rs, `pages_for`, `discovery_request` and `discovery_reply_len`.
use fan_control_lian_li_wire.Base.{ℕ, ◌*◌, ◌≤◌, ◌<◌, min, max, ◌≡◌, refl, ◌∷◌, arith, replicate}
use fan_control_lian_li_wire.Frame.{
  records_per_page, page_len, max_pages, send_rf, discovery_request, discovery_reply_len, pages_for,
}

-- For any `u8` device count the page count is between 1 and the most a request can ask for, has
-- room for that many records, and is at most any count of one or more that has.
pub pages_for_least :
    (devices n : ℕ)
    → devices < 256
    → 1 ≤ n
    → devices ≤ n * records_per_page
    → (1 ≤ pages_for devices)
      × (pages_for devices ≤ max_pages)
      × (devices ≤ pages_for devices * records_per_page)
      × (pages_for devices ≤ n)
unfolding pages_for
pages_for_least devices n h p q = (omega arith, omega arith, omega arith, omega arith)

-- A discovery request is 64 bytes, names the command and a page count from 1 to 26, and is
-- otherwise zero; a page count already in that range is kept.
pub discovery_request_lem :
    (pages : ℕ)
    → (n : ℕ) × (1 ≤ n)
      × (n ≤ max_pages)
      × (1 ≤ pages → pages ≤ max_pages → n ≡ pages)
      × (discovery_request pages ≡ send_rf ∷ n ∷ replicate 62 0)
      × (discovery_reply_len pages ≡ n * page_len)
unfolding discovery_request discovery_reply_len
discovery_request_lem pages =
    (min (max pages 1) max_pages, omega arith, omega arith, (λ p q. omega arith), refl, refl)
