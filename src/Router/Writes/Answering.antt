-- ===== src/Router/Writes/Answering.antt =====
-- The writes of `reply`, `snooze`, `accept`, `decline` and `cancel`.
use claude_ipc.Base.{Text, ◌==◌, Bool, true, false, not, ◌&&◌, Option, none, some, refl, or_default}
use claude_ipc.Models.{Message, inform, responded}
use claude_ipc.ProjectAddress.{is_project_address}
use claude_ipc.Storage.State.{Backend}
use claude_ipc.Storage.Messages.{get_message, origin_of}
use claude_ipc.Storage.Asks.{get_awaiting}
use claude_ipc.Storage.Machine.{apply, closes_awaiting, defers_nudge}
use claude_ipc.Broker.{Broker, Env}
use claude_ipc.Registry.{touch_by_act, truthy}
use claude_ipc.Router.Guards.{is_reserved, owns, not_actable}
use claude_ipc.Router.Send.{kind_eq}
use claude_ipc.Router.Replies.{
  ReplyArgs, consume, post, consume_own, consume_project, is_sibling_of, close_if, defer_if, answer,
  is_closed, reply_message, reply_to_ask, reply_to_inform, reply_to_other, reply_as, reply,
  is_cancelled, says_nothing,
}
use claude_ipc.Router.Writes.{
  Written, Leaves, Written-apply, if_Leaves, option-Leaves, if_Written, touch_by_act-Written,
  post-Written, consume-Written,
}

module _ (b : Backend) (env : Env) where
  consume_own-Written :
      (c : Broker) (from corr : Text) (o : Message)
      → Written b c.backend
      → Written b (consume_own env c from corr o).backend
  consume_own-Written c from corr o h =
      let own = consume-Written b c corr from h in
      if_Written b (is_sibling_of env (consume c corr from) from o.to_alias)
        (consume (consume c corr from) corr o.to_alias) (consume c corr from)
        (consume-Written b (consume c corr from) corr o.to_alias own) own

  consume_project-Written :
      (c : Broker) (corr : Text) (o : Message)
      → Written b c.backend
      → Written b (consume_project c corr o).backend
  consume_project-Written c corr o h =
      if_Written b (is_project_address o.to_alias) (consume c corr o.to_alias) c
        (consume-Written b c corr o.to_alias h) h

  close_if-Written :
      (x : Bool) (c : Broker) (corr : Text)
      → Written b c.backend
      → Written b (close_if x c corr).backend
  unfolding apply
  close_if-Written true c corr h =
      Written-apply b c.backend (closes_awaiting corr (some responded)) refl h
  close_if-Written false c corr h = h

  defer_if-Written :
      (x : Bool) (c : Broker) (corr : Text)
      → Written b c.backend
      → Written b (defer_if x env c corr).backend
  unfolding apply
  defer_if-Written true c corr h = Written-apply b c.backend (defers_nudge corr env.now) refl h
  defer_if-Written false c corr h = h

  answer-Leaves :
      (a : ReplyArgs) (c : Broker) (from corr : Text) (o : Message)
      → Written b c.backend
      → Leaves b (answer env c a from corr o)
  unfolding answer
  answer-Leaves a c from corr o h =
      let terminal = or_default a.terminal true in
      let posted = post c (reply_message env c a from corr o) in
      let x = terminal && not (is_closed (get_awaiting c.backend corr)) in
      let closed = close_if x posted corr in
      let deferred = defer_if (not terminal) env closed corr in
      consume_project-Written (consume_own env deferred from corr o) corr o (
        consume_own-Written deferred from corr o (
          defer_if-Written (not terminal) closed corr (
            close_if-Written x posted corr
              (post-Written b c (reply_message env c a from corr o) h))))

  reply_to_ask-Leaves :
      (a : ReplyArgs) (c : Broker) (from corr : Text) (o : Message)
      → Written b c.backend
      → Leaves b (reply_to_ask env c a from corr o)
  unfolding reply_to_ask
  reply_to_ask-Leaves a c from corr o h =
      if_Leaves b (is_cancelled (get_awaiting c.backend corr)) _ _
        (consume_project-Written (consume c corr from) corr o (consume-Written b c corr from h))
        (if_Leaves b (says_nothing a) _ _ h (answer-Leaves a c from corr o h))

  reply_to_inform-Leaves :
      (a : ReplyArgs) (c : Broker) (from corr : Text) (o : Message)
      → Written b c.backend
      → Leaves b (reply_to_inform env c a from corr o)
  unfolding reply_to_inform
  reply_to_inform-Leaves a c from corr o h =
      let m = reply_message env c a from corr o in
      option-Leaves b (not_actable env c corr from) _ _
        (if_Leaves b (says_nothing a) _ _ h
          (consume_own-Written (post c m) from corr o (post-Written b c m h)))
        (λ code. h)

  reply_to_other-Leaves :
      (a : ReplyArgs) (c : Broker) (from corr : Text) (o : Option Message)
      → Written b c.backend
      → Leaves b (reply_to_other env c a from corr o)
  unfolding reply_to_other
  reply_to_other-Leaves a c from corr none h = h
  reply_to_other-Leaves a c from corr (some m) h =
      if_Leaves b (kind_eq m.kind inform && not (m.from_alias == from)) _ _
        (reply_to_inform-Leaves a c from corr m h) h

  reply_as-Leaves :
      (a : ReplyArgs) (c : Broker) (from corr : Text)
      → Written b c.backend
      → Leaves b (reply_as env c a from corr)
  unfolding reply_as
  reply_as-Leaves a c from corr h =
      option-Leaves b (origin_of c.backend corr) _ _
        (reply_to_other-Leaves a c from corr (get_message c.backend corr) h)
        (λ o. reply_to_ask-Leaves a c from corr o h)

  pub reply-Leaves :
      (a : ReplyArgs) (c : Broker) (token : Option Text)
      → Written b c.backend
      → Leaves b (reply env c a token)
  unfolding reply
  reply-Leaves a c token h = option-Leaves b (truthy a.from_alias) _ _ h (λ from.
      option-Leaves b (truthy a.corr_id) _ _ h (λ corr. if_Leaves b (is_reserved from) _ _ h (
        if_Leaves b (not (owns c token from)) _ _ h (
          reply_as-Leaves a (touch_by_act env c from) from corr
            (touch_by_act-Written b env c from h)))))
