-- ===== src/Feeds/Binance/Tracking.antt =====
-- The tracked set under `subscribe` and `unsubscribe`, and what the control frames tell the server.
use orvixa.Prelude.{◌≡◌, refl, true, not, ◌&&◌, ◌||◌, List, [], ◌∷◌, ◌++◌, arith}
use orvixa.Prelude.Eq.{Text, text_eq}
use orvixa.Prelude.Sets.{
  member, union, minus, meet, member-minus, member-meet, member-union, member_none,
}
use orvixa.Feeds.Binance.{
  Subscriptions, Frame, subscribed, unsubscribed, upper_all, send, subscribe_new, unsubscribe_drop,
  subscribe, unsubscribe,
}

-- The streams that the server carries after a frame, by the pairs.
abbrev after_frame : List Text → Frame → List Text
after_frame carried (subscribed new) = union carried new
after_frame carried (unsubscribed drop) = minus carried drop

unfoldable pub carried_after : List Text → List Frame → List Text
carried_after carried [] = carried
carried_after carried (frame ∷ frames) = carried_after (after_frame carried frame) frames

carried_after-append :
    (carried : List Text) (xs ys : List Frame)
    → carried_after carried (xs ++ ys) ≡ carried_after (carried_after carried xs) ys
unfolding carried_after
carried_after-append carried [] ys = refl
carried_after-append carried (x ∷ xs) ys = carried_after-append (after_frame carried x) xs ys

member-subscribe_new :
    (p : Text) (new : List Text) (s : Subscriptions)
    → member p (subscribe_new new s).symbols ≡ (member p s.symbols || member p new)
unfolding subscribe_new send
member-subscribe_new p [] s = ground (arith, member_none p)
member-subscribe_new p (q ∷ new) s = ground (arith, member-union p s.symbols (q ∷ new))

member-unsubscribe_drop :
    (p : Text) (drop : List Text) (s : Subscriptions)
    → member p (unsubscribe_drop drop s).symbols ≡ (member p s.symbols && not (member p drop))
unfolding unsubscribe_drop send
member-unsubscribe_drop p [] s = ground (arith, member_none p)
member-unsubscribe_drop p (q ∷ drop) s = ground (arith, member-minus p s.symbols (q ∷ drop))

-- After `subscribe` the feed tracks what it tracked and the given pairs in upper case.
pub member-subscribe :
    (p : Text) (pairs : List Text) (s : Subscriptions)
    → member p (subscribe pairs s).symbols ≡ (member p s.symbols || member p (upper_all pairs))
unfolding subscribe
member-subscribe p pairs s = ground (
  arith,
  member-subscribe_new p (minus (union [] (upper_all pairs)) s.symbols) s,
  member-minus p (union [] (upper_all pairs)) s.symbols,
  member-union p [] (upper_all pairs),
  member_none p,
)

-- After `unsubscribe` it tracks what it tracked but for them.
pub member-unsubscribe :
    (p : Text) (pairs : List Text) (s : Subscriptions)
    → member p (unsubscribe pairs s).symbols
      ≡ (member p s.symbols && not (member p (upper_all pairs)))
unfolding unsubscribe
member-unsubscribe p pairs s = ground (
  arith,
  member-unsubscribe_drop p (meet (union [] (upper_all pairs)) s.symbols) s,
  member-meet p (union [] (upper_all pairs)) s.symbols,
  member-union p [] (upper_all pairs),
  member_none p,
)

-- The server, told of the frames since the socket opened on `opened`, carries what the feed tracks.
pub record IsMirrored (opened : List Text) (s : Subscriptions) : Type 0 where
  pub open_socket : s.has_socket ≡ true
  pub mirrored : (p : Text) → member p (carried_after opened s.frames) ≡ member p s.symbols

subscribe_new-IsMirrored :
    (opened new : List Text) (s : Subscriptions)
    → IsMirrored opened s
    → IsMirrored opened (subscribe_new new s)
unfolding subscribe_new send carried_after
subscribe_new-IsMirrored opened [] s h = h
subscribe_new-IsMirrored opened (q ∷ new) s h = record {
  open_socket = ground arith;
  mirrored = λ p. ground (
    arith,
    h.mirrored p,
    carried_after-append opened s.frames (subscribed (q ∷ new) ∷ []),
    member-union p (carried_after opened s.frames) (q ∷ new),
    member-union p s.symbols (q ∷ new),
  );
}

unsubscribe_drop-IsMirrored :
    (opened drop : List Text) (s : Subscriptions)
    → IsMirrored opened s
    → IsMirrored opened (unsubscribe_drop drop s)
unfolding unsubscribe_drop send carried_after
unsubscribe_drop-IsMirrored opened [] s h = h
unsubscribe_drop-IsMirrored opened (q ∷ drop) s h = record {
  open_socket = ground arith;
  mirrored = λ p. ground (
    arith,
    h.mirrored p,
    carried_after-append opened s.frames (unsubscribed (q ∷ drop) ∷ []),
    member-minus p (carried_after opened s.frames) (q ∷ drop),
    member-minus p s.symbols (q ∷ drop),
  );
}

-- On an open socket the control frames of `subscribe` and of `unsubscribe` keep the streams of the
-- server equal to the tracked pairs.
pub tracked-IsMirrored :
    (opened pairs : List Text) (s : Subscriptions)
    → IsMirrored opened s
    → IsMirrored opened (subscribe pairs s) × IsMirrored opened (unsubscribe pairs s)
unfolding subscribe unsubscribe
tracked-IsMirrored opened pairs s h =
    (subscribe_new-IsMirrored opened _ s h, unsubscribe_drop-IsMirrored opened _ s h)
