-- ===== src/Broadcast/Pushed.antt =====
-- Whom a personal push reaches, and with what.
use archon_vibe.Prelude.{
  String, ◌≡◌, refl, ap, ◌∙◌, Bool, false, ◌&&◌, Option, none, some, arith, ◌==◌, string_eq,
  Bool-cases, inl, inr, Option-cases, is_none, given_text, if◌then◌else◌, some-injective, subst,
  ◌<>◌,
}
use archon_vibe.Prelude.Dict.{lookup, lookup-insert}
use archon_vibe.Json.{Json, Fields, end, field}
use archon_vibe.Models.Enums.{value_of}
use archon_vibe.Models.Roles.{object_type_eq, object_type_values}
use archon_vibe.Models.Users.{User}
use archon_vibe.AccessLevels.Dispatch.{Projection}
use archon_vibe.Broadcast.Queue.{FrameKey, frame_key_eq}
use archon_vibe.Broadcast.Queue.Delivery.{put_accepted}
use archon_vibe.Broadcast.Fanout.{SseConnection}
use archon_vibe.Broadcast.PersonalView.{view_of, view_of-project}
use archon_vibe.Broadcast.Personal.{
  Push, project, is_addressed, push_level, key_of_push, document_for, personal_frame, put_personal,
  push_to,
}

module _ (encode : Fields → String) (now : String) where
  -- What is pending under a key after a push that raised nothing.
  abbrev pushed : Push → Projection → FrameKey → Option String → Option String
  pushed push none k before = before
  pushed push (some proj) k before =
      if key_of_push push == k then some (personal_frame encode now push proj) else before

  put_personal-pending :
      (push : Push) (o : Projection) (conn after : SseConnection) (k : FrameKey)
      → put_personal encode now push o conn ≡ some (after, false)
      → lookup k after.queue.items ≡ pushed push o k (lookup k conn.queue.items)
  unfolding put_personal
  put_personal-pending push none conn after k h = cc
  put_personal-pending push (some proj) conn after k h = ground (
    arith,
    h,
    put_accepted (personal_frame encode now push proj) (key_of_push push) conn.queue,
    lookup-insert k (key_of_push push) (personal_frame encode now push proj) conn.queue.items,
  )

  push_to-pending :
      (push : Push) (conn after : SseConnection) (k : FrameKey)
      → push_to encode now push conn ≡ some (after, false)
      → lookup k after.queue.items ≡ (
          if is_addressed push conn
          then pushed push
              (project (push_level push conn) push.obj_type push.full_dict)
              k
              (lookup k conn.queue.items)
          else lookup k conn.queue.items)
  unfolding push_to
  push_to-pending push conn after k = elim (Bool-cases (is_addressed push conn)) [
    | inl addressed ↦ rw addressed (
        put_personal-pending push (project (push_level push conn) push.obj_type push.full_dict) conn
          after k)
    | inr other ↦ rw other (λ h.
        subst (λ (r : SseConnection × Bool). lookup k r.0.queue.items ≡ lookup k conn.queue.items)
          (some-injective h) refl)
  ]

  -- A value that a frame carries only where there is one.
  abbrev pub attribute : String → Option String → String
  attribute name none = ""
  attribute name (some v) =
      if given_text (some v) then ",\"" <> name <> "\":\"" <> v <> "\"" else ""

  -- The frame of a push: its type, the document or a tombstone, the time and the access version.
  abbrev pub frame_of : Push → Option Fields → String
  frame_of push shown =
      "data: {\"type\":\""
      <> value_of object_type_values push.obj_type
      <> "\",\"data\":"
      <> encode (elim shown [
        | some d ↦ d
        | none ↦ field "uid" (Json.str push.uid) (
            field "deleted_at"
              (Json.str (elim push.modified_at [
                | none ↦ now
                | some at ↦ if given_text (some at) then at else now
              ]))
              end)
      ])
      <> attribute "ts" push.modified_at
      <> attribute "av" push.access_version
      <> "}\n\n"

  personal_frame-frame_of :
      (push : Push) (shown : Option Fields)
      → personal_frame encode now push shown ≡ frame_of push shown
  unfolding personal_frame document_for
  personal_frame-frame_of push none = refl
  personal_frame-frame_of push (some d) = refl

  -- What is pending under a key of a user's browser after a push of an object that shows it as `view`.
  abbrev pub arrived : Push → Projection → FrameKey → Option String → Option String
  arrived push none k before = before
  arrived push (some shown) k before =
      if FrameKey.object push.obj_type push.uid == k then some (frame_of push shown) else before

  pushed-arrived :
      (push : Push) (view : Projection) (k : FrameKey) (before : Option String)
      → pushed push view k before ≡ arrived push view k before
  pushed-arrived push none k before = refl
  pushed-arrived push (some shown) k before =
      ap (λ m. if key_of_push push == k then some m else before)
        (personal_frame-frame_of push shown)

  push_to-view :
      (push : Push) (conn : SseConnection) (k : FrameKey) (before : Option String)
      (user : Option User)
      → conn.user ≡ user
      → (if is_addressed push conn
          then pushed push (project (push_level push conn) push.obj_type push.full_dict) k before
          else before)
        ≡ elim user [
          | none ↦ before
          | some viewer ↦
              if viewer.uid == push.user_uid && is_none conn.tournament_uid
              then arrived push (view_of viewer push) k before
              else before
        ]
  push_to-view push conn k before none e = elim (Option-cases conn.tournament_uid) [
    | inl whole ↦ rw e (rw whole refl)
    | inr (t, scoped) ↦ rw e (rw scoped refl)
  ]
  push_to-view push conn k before (some viewer) e = elim (Option-cases conn.tournament_uid) [
    | inr (t, scoped) ↦ elim (Bool-cases (viewer.uid == push.user_uid)) [
      | inl same ↦ rw scoped (rw same refl)
      | inr other ↦ rw scoped (rw other refl)
    ]
    | inl whole ↦ elim (Bool-cases (viewer.uid == push.user_uid)) [
      | inr other ↦ rw e (rw whole (rw other refl))
      | inl same ↦ rw e (
          rw whole (
            rw same (
              ap (λ view. pushed push view k before) (view_of-project viewer push)
              ∙ pushed-arrived push (view_of viewer push) k before)))
    ]
  ]

  -- A personal push that neither raises nor drops a connection changes what is pending there only if
  -- the connection is a browser of the addressed user, and is not limited to one tournament: then the
  -- object's key holds a frame of what that user may see of the object, or of the tombstone where
  -- that is nothing, and every other key holds what it held.
  pub push_to-reaches :
      (push : Push) (conn after : SseConnection) (k : FrameKey)
      → push_to encode now push conn ≡ some (after, false)
      → lookup k after.queue.items ≡ elim conn.user [
        | none ↦ lookup k conn.queue.items
        | some viewer ↦
            if viewer.uid == push.user_uid && is_none conn.tournament_uid
            then arrived push (view_of viewer push) k (lookup k conn.queue.items)
            else lookup k conn.queue.items
      ]
  push_to-reaches push conn after k h =
      push_to-pending push conn after k h
      ∙ push_to-view push conn k (lookup k conn.queue.items) conn.user refl
