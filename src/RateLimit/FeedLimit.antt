-- ===== src/RateLimit/FeedLimit.antt =====
-- internal/ratelimit/feedlimit.go: at most five feed submissions of one type in a sliding window. The
-- test `ts.After(now.Add(-window))` is `now < ts + window` here, so that no time is negative.
use smart_proxy.RateLimit.Bucket.{Rising, last_time}
use smart_proxy.Base.{
  ℕ, ◌+◌, ◌≤◌, ◌<◌, ◌≡◌, refl, sym, ap, subst, ◌∙◌, ◌≢◌, inl, inr, Bool, true, false, none, some,
  List, [], ◌∷◌, ◌++◌, arith, ltb, leb, if◌then◌else◌, ◌==◌, nat_eq, text_eq, text_beq_iff,
  Bool-cases, length, keep, text_beq_refl, length-append, length-keep-le, keep-append,
}
use smart_proxy.Base.Text.{Text, text}
use smart_proxy.Base.Dict.{Dict, lookup, insert, lookup-insert}

pub record FeedLimiter : Type 0 where
  pub window : ℕ
  pub max_per_win : ℕ
  pub entries : Dict Text (List ℕ)

abbrev pub json_listings_feed_type : Text
json_listings_feed_type = text "JSON_LISTINGS_FEED"

unfoldable pub new_feed_limiter_with_window : ℕ → FeedLimiter
new_feed_limiter_with_window window = record { window = window; max_per_win = 5; entries = [] }

abbrev pub default_feed_window : ℕ
default_feed_window = 300_000_000_000

unfoldable pub new_feed_limiter : FeedLimiter
unfolding new_feed_limiter_with_window
new_feed_limiter = new_feed_limiter_with_window default_feed_window

abbrev pub stamps : FeedLimiter → Text → List ℕ
stamps fl key = elim (lookup key fl.entries) [ none ↦ [] | some ts ↦ ts ]

abbrev pub in_window : ℕ → ℕ → ℕ → Bool
in_window window now ts = ltb now (ts + window)

abbrev pub valid : FeedLimiter → Text → ℕ → List ℕ
valid fl key now = keep (in_window fl.window now) (stamps fl key)

abbrev pub limit_key : Text → Text → Text
limit_key merchant_key region = merchant_key ++ text ":" ++ region

-- the checked path of `Allow`, for the joined key
unfoldable pub allow_key : FeedLimiter → Text → ℕ → FeedLimiter × Bool
allow_key fl key now =
    if leb fl.max_per_win (length (valid fl key now))
    then (record fl { entries = insert key (valid fl key now) fl.entries }, false)
    else (record fl { entries = insert key (valid fl key now ++ now ∷ []) fl.entries }, true)

unfoldable pub allow : FeedLimiter → Text → Text → Text → ℕ → FeedLimiter × Bool
unfolding allow_key
allow fl merchant_key region feed_type now =
    if feed_type == json_listings_feed_type
    then allow_key fl (limit_key merchant_key region) now
    else (fl, true)

-- Submissions for one key at the given times, with the times of those that were allowed.
unfoldable pub submit_all : FeedLimiter → Text → List ℕ → List ℕ → FeedLimiter × List ℕ
submit_all fl key granted [] = (fl, granted)
submit_all fl key granted (t ∷ ts) =
    let (fl', ok) = allow_key fl key t in
    submit_all fl' key (if ok then granted ++ t ∷ [] else granted) ts

-- A stamp that is in the window later is in it now.
keep-keep_earlier :
    (w now later : ℕ) (ts : List ℕ)
    → now ≤ later
    → keep (in_window w later) (keep (in_window w now) ts) ≡ keep (in_window w later) ts
unfolding keep
keep-keep_earlier w now later [] h = refl
keep-keep_earlier w now later (t ∷ ts) h = ground (arith, keep-keep_earlier w now later ts h)

stamps-allow_key :
    (fl : FeedLimiter) (key : Text) (now : ℕ)
    → (stamps (allow_key fl key now).0 key
        ≡ (if (allow_key fl key now).1 then valid fl key now ++ now ∷ [] else valid fl key now))
      × ((allow_key fl key now).0.window ≡ fl.window)
      × ((allow_key fl key now).0.max_per_win ≡ fl.max_per_win)
unfolding allow_key
stamps-allow_key fl key now = ground (
  arith,
  lookup-insert key key (valid fl key now) fl.entries,
  lookup-insert key key (valid fl key now ++ now ∷ []) fl.entries,
  text_beq_refl key,
)

-- What the limiter remembers of a key stands for all that it granted: at no later time is there
-- another grant in the window, and what it remembers is within the limit.
record Remembers (fl : FeedLimiter) (key : Text) (granted : List ℕ) (now : ℕ) : Type 0 where
  same :
      (later : ℕ)
      → now ≤ later
      → keep (in_window fl.window later) granted ≡ keep (in_window fl.window later) (stamps fl key)
  bounded : length (stamps fl key) ≤ fl.max_per_win

length-valid-le :
    (fl : FeedLimiter) (key : Text) (now : ℕ) → length (valid fl key now) ≤ length (stamps fl key)
length-valid-le fl key now = length-keep-le (in_window fl.window now) (stamps fl key)

allow_key_count :
    (fl : FeedLimiter) (key : Text) (now : ℕ)
    → (allow_key fl key now).1 ≡ true
    → length (valid fl key now) < fl.max_per_win
unfolding allow_key
allow_key_count fl key now h = ground arith

allow_key-Remembers :
    (fl : FeedLimiter) (key : Text) (granted : List ℕ) (before now : ℕ)
    → before ≤ now
    → Remembers fl key granted before
    → Remembers
        (allow_key fl key now).0
        key
        (if (allow_key fl key now).1 then granted ++ now ∷ [] else granted)
        now
allow_key-Remembers fl key granted before now h r =
    let fl' = (allow_key fl key now).0 in
    let w = fl.window in
    let (left, win, max) = stamps-allow_key fl key now in
    let old : (later : ℕ)
        → now ≤ later
        → keep (in_window w later) granted ≡ keep (in_window w later) (valid fl key now) =
      λ later q.
        r.same later (omega arith) ∙ sym (keep-keep_earlier w now later (stamps fl key) q) in
    elim (Bool-cases (allow_key fl key now).1) [
      | inl ok ↦ record {
        same = λ later q.
            rw (ok, win, left, ok)
              (keep-append (in_window w later) granted (now ∷ [])
                ∙ ap (λ l. l ++ keep (in_window w later) (now ∷ [])) (old later q)
                ∙ sym (keep-append (in_window w later) (valid fl key now) (now ∷ [])));
        bounded =
            rw (left, ok, max)
              (omega (
                arith,
                length-append (valid fl key now) (now ∷ []),
                allow_key_count fl key now ok,
              ));
      }
      | inr denied ↦ record {
        same = λ later q. rw (denied, win, left, denied) (old later q);
        bounded = rw (left, denied, max) (omega (arith, length-valid-le fl key now, r.bounded));
      }
    ]

submit_all-Remembers :
    (ts : List ℕ) (fl : FeedLimiter) (key : Text) (granted : List ℕ) (t : ℕ)
    → Rising t ts
    → Remembers fl key granted t
    → Remembers
        (submit_all fl key granted ts).0
        key
        (submit_all fl key granted ts).1
        (last_time t ts)
unfolding submit_all
submit_all-Remembers [] fl key granted t w r = r
submit_all-Remembers (u ∷ us) fl key granted t (h, w) r =
    submit_all-Remembers us (allow_key fl key u).0 key _ u w
      (allow_key-Remembers fl key granted t u h r)

submit_all_frame :
    (ts : List ℕ) (fl : FeedLimiter) (key : Text) (granted : List ℕ)
    → ((submit_all fl key granted ts).0.window ≡ fl.window)
      × ((submit_all fl key granted ts).0.max_per_win ≡ fl.max_per_win)
unfolding submit_all
submit_all_frame [] fl key granted = (refl, refl)
submit_all_frame (t ∷ ts) fl key granted =
    let (_, win, max) = stamps-allow_key fl key t in
    let rest =
      submit_all_frame ts (allow_key fl key t).0 key
        (if (allow_key fl key t).1 then granted ++ t ∷ [] else granted) in
    (rest.0 ∙ win, rest.1 ∙ max)

-- The sliding window: whatever submissions a new limiter has been asked for one key, at times that
-- do not fall, at most five of those that it allowed lie in the window that ends now.
pub submit_all_window :
    (window now t : ℕ) (key : Text) (ts : List ℕ)
    → Rising t ts
    → last_time t ts ≤ now
    → length
        (keep (in_window window now) (submit_all (new_feed_limiter_with_window window) key [] ts).1)
      ≤ 5
unfolding new_feed_limiter_with_window
submit_all_window window now t key ts w h =
    let start = new_feed_limiter_with_window window in
    let done = (submit_all start key [] ts).0 in
    let (win, max) = submit_all_frame ts start key [] in
    let r = submit_all-Remembers ts start key [] t w (record {
      same = λ later q. unfold lookup in refl;
      bounded = unfold lookup in omega arith;
    }) in
    let same : keep (in_window window now) (submit_all start key [] ts).1
        ≡ keep (in_window window now) (stamps done key) =
      subst
        (λ v.
          keep (in_window v now) (submit_all start key [] ts).1
          ≡ keep (in_window v now) (stamps done key))
        win (r.same now h) in
    omega (
      arith,
      ap length same,
      length-keep-le (in_window window now) (stamps done key),
      r.bounded,
      max,
    )

-- `Allow` leaves what is remembered of every other merchant and region as it was, also when it
-- denies and when the feed is of another type.
pub allow_frame :
    (fl : FeedLimiter) (merchant_key region feed_type key : Text) (now : ℕ)
    → key ≢ limit_key merchant_key region
    → stamps (allow fl merchant_key region feed_type now).0 key ≡ stamps fl key
unfolding allow
allow_frame fl merchant_key region feed_type key now h =
    let k = limit_key merchant_key region in
    ground (
      arith,
      lookup-insert k key (valid fl k now) fl.entries,
      lookup-insert k key (valid fl k now ++ now ∷ []) fl.entries,
      text_beq_iff k key,
    )
