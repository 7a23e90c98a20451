-- ===== src/Roster/Pages/Laws.antt =====
-- The pages of the roster: their bounds, and that the export holds every page.
use apekeeper.Common.{
  ℕ, ◌-◌, ◌*◌, ◌/◌, ◌%◌, ◌<◌, ◌≤◌, ◌≡◌, sym, subst, String, false, Option, ℤ, pos, ltz, ok, bind-ok,
  guard-ok, arith,
}
use native.Mathlib.Nat.{le-div_iff_mul-le}
use apekeeper.Domain.{Guild}
use apekeeper.Roster.{by_guild_rank}
use apekeeper.Roster.Params.{Float, integer, parse_roster_query}
use apekeeper.Roster.Pages.{ListCall, week, max_int, or_refuse, bad_request, positive, roster_call}

product-fits : (a s : ℕ) → 0 < s → a ≤ max_int / s → a * s ≤ max_int
product-fits a s h k = (le-div_iff_mul-le h).0 k

small-mod : (a : ℕ) → a ≤ max_int → a % 18446744073709551616 ≡ a
small-mod a h = omega arith

module _ (atoi : String → Option ℤ) (parse_float : String → Option Float)
    (get : String → String) where
  positive-bounds :
      (name : String) (default : ℕ) (message : String) (n : ℕ)
      → 0 < default
      → positive atoi parse_float get name default (λ v. false) message ≡ ok n
      → 0 < n
  unfolding positive integer
  positive-bounds name default message n d h = ground arith

  size-bounds :
      (n : ℕ)
      → positive atoi parse_float get "pageSize" 25 (ltz (pos 100)) "invalid roster page size"
        ≡ ok n
      → (0 < n) × (n ≤ 100)
  unfolding positive integer
  size-bounds n h = ground arith

  -- A roster request that reaches the database asks for a page from 1 on of 1 to 100 characters, and
  -- the offset is that of the page: neither the product nor a sum before it has wrapped around.
  pub roster_call-IsExact :
      (guild : Option Guild) (now page : ℕ) (call : ListCall)
      → roster_call atoi parse_float get guild now ≡ ok (page, call)
      → (0 < page)
        × (0 < call.limit)
        × (call.limit ≤ 100)
        × (call.offset ≡ (page - 1) * call.limit)
        × (call.offset ≤ max_int)
  unfolding roster_call
  roster_call-IsExact guild now page call h =
      let (g, a, h1) = bind-ok (or_refuse 500 "guild lookup failed" guild) _ (page, call) h in
      let (q, b, h2) =
        bind-ok (bad_request (parse_roster_query atoi parse_float get (now - week) by_guild_rank)) _
          (page, call) h1 in
      let (n, c, h3) =
        bind-ok (positive atoi parse_float get "page" 1 (λ v. false) "invalid roster page") _
          (page, call) h2 in
      let (s, d, h4) =
        bind-ok
          (positive atoi parse_float get "pageSize" 25 (ltz (pos 100)) "invalid roster page size") _
          (page, call) h3 in
      let (low, e) = guard-ok _ _ _ (page, call) h4 in
      let (least, most) = size-bounds s d in
      let fits : (n - 1) * s ≤ max_int = product-fits (n - 1) s least (ground arith) in
      let exact = small-mod ((n - 1) * s) fits in
      subst
        (λ r.
          (0 < r.0)
          × (0 < r.1.limit)
          × (r.1.limit ≤ 100)
          × (r.1.offset ≡ (r.0 - 1) * r.1.limit)
          × (r.1.offset ≤ max_int))
        e
        (
          positive-bounds "page" 1 "invalid roster page" n (ground arith) c,
          least,
          most,
          exact,
          subst (λ k. k ≤ max_int) (sym exact) fits,
        )
