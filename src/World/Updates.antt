-- ===== src/World/Updates.antt =====
-- An update of the journal as an action on the world: what it keeps, whether its write is done or raises.
use hermes_drop.Base.{
  ℕ, ◌+◌, ◌≡◌, refl, ◌∙◌, ◌≢◌, ◌⊎◌, inl, inr, Option, some, arith, option_eq, string_eq, nat_eq,
  Option-cases,
}
use hermes_drop.Base.{Text, text_eq}
use hermes_drop.Base.Dict.{Dict}
use hermes_drop.Base.Exec.{ok, pure, raise, gets, ◌>>=◌}
use hermes_drop.Routing.{routing_eq}
use hermes_drop.Journal.Entry.{Key, key_eq, Value, string, Entry, drop_id, get, text_of}
use hermes_drop.Journal.Store.{Directory, get_drop}
use hermes_drop.World.{Outside, World, Action, ask, show, set_directory, update_drop}
use hermes_drop.Base.Exec.Keeps.{Keeps}
use hermes_drop.Journal.Write.{
  Moment, renamed, Interruption, killed, raised as write_raised, interrupted, write, write_until,
  Written, rejected, absent, written, put, update,
}
use hermes_drop.Journal.Update.{IsUpdate, update-IsUpdate, update-write, IsUpdate-string}
use hermes_drop.World.{commit}

-- An action keeps a property of the directory.
abbrev pub KeepsDir : {A : Type 0} → (Directory → Type 0) → Action A → Type 0
KeepsDir P m = Keeps (λ (w : World). P w.directory) m

-- What a write has to keep: the directory after it, done or broken off.
abbrev pub Survives : (Directory → Type 0) → Value → Dict Key Value → Type 0
Survives P id changes =
    (s : Text) (i : Interruption) (temp now : ℕ) (d : Directory) (f : Entry)
    → id ≡ string s
    → IsUpdate s changes now d f
    → P d
    → P (interrupted i (text_of (get drop_id f)) f temp now d)

module _ (o : Outside) (P : Directory → Type 0) where
  commit-keeps :
      (temp now : ℕ) (r : Written) (d : Directory) (w : World)
      → P w.directory
      → ((f : Entry) → r ≡ written f → P d)
      → ((f : Entry) (m : Moment)
          → r ≡ written f
          → P (interrupted (write_raised m) (text_of (get drop_id f)) f temp now w.directory))
      → P (commit o temp now (r, d) w).1.directory
  unfolding commit ask show set_directory ◌>>=◌
  commit-keeps temp now (rejected r) d w h whole broken = h
  commit-keeps temp now absent d w h whole broken = h
  commit-keeps temp now (written f) d w h whole broken =
      elim (Option-cases (o.write_raises w.questions)) [
        | inl done ↦ rw done (whole f refl)
        | inr (m, fault) ↦ rw fault (broken f m refl)
      ]

  update-whole :
      (id : Value) (changes : Dict Key Value) (temp now : ℕ) (d : Directory) (f : Entry)
      → Survives P id changes
      → P d
      → (update id changes temp now d).0 ≡ written f
      → P (update id changes temp now d).1
  unfolding write_until interrupted
  update-whole id changes temp now d f k h eq =
      let (s, same) = IsUpdate-string id changes temp now d f eq in
      let eq' = rw same at eq in
      rw (same, update-write s changes temp now d f eq')
        (k s (killed renamed) temp now d f same (update-IsUpdate s changes temp now d f eq') h)

  update-broken :
      (id : Value) (changes : Dict Key Value) (temp now : ℕ) (d : Directory) (f : Entry)
      (m : Moment)
      → Survives P id changes
      → P d
      → (update id changes temp now d).0 ≡ written f
      → P (interrupted (write_raised m) (text_of (get drop_id f)) f temp now d)
  update-broken id changes temp now d f m k h eq =
      let (s, same) = IsUpdate-string id changes temp now d f eq in
      k s (write_raised m) temp now d f same
        (update-IsUpdate s changes temp now d f (rw same at eq)) h

  pub update_drop-KeepsDir :
      (id : Value) (changes : Dict Key Value)
      → Survives P id changes
      → KeepsDir P (update_drop o id changes)
  unfolding update_drop ask ◌>>=◌ gets
  update_drop-KeepsDir id changes k = record {
    at = λ w h.
        let temp = o.temp w.questions in
        let now = o.clock (w.questions + 1) in
        let d = w.directory in
        commit-keeps temp now (update id changes temp now d).0 (update id changes temp now d).1
          (record w { questions = w.questions + 1 + 1 }) h
          (λ f eq. update-whole id changes temp now d f k h eq)
          (λ f m eq. update-broken id changes temp now d f m k h eq);
  }

-- An update that returns has put an entry, unless there is none to update.
pub record IsDone (o : Outside) (s : Text) (changes : Dict Key Value) (w : World) : Type 0 where
  pub temp : ℕ
  pub now : ℕ
  pub entry : Entry
  pub is_update : IsUpdate s changes now w.directory entry
  pub after :
      (update_drop o (string s) changes w).1.directory
      ≡ write (text_of (get drop_id entry)) entry temp now w.directory

module _ (o : Outside) where
  commit-done :
      (temp now : ℕ) (r : Written) (d : Directory) (w : World) (a : Option Entry)
      → (commit o temp now (r, d) w).0 ≡ ok a
      → (r ≡ absent)
        ⊎ ((f : Entry) × (r ≡ written f) × ((commit o temp now (r, d) w).1.directory ≡ d))
  unfolding commit ask show set_directory ◌>>=◌ raise gets pure
  commit-done temp now (rejected r) d w a h = absurd (ground arith)
  commit-done temp now absent d w a h = inl refl
  commit-done temp now (written f) d w a h = elim (Option-cases (o.write_raises w.questions)) [
    | inl done ↦ inr (f, refl, rw done refl)
    | inr (m, fault) ↦ absurd (ground arith)
  ]

  update-present :
      (s : Text) (changes : Dict Key Value) (temp now : ℕ) (d : Directory) (e : Entry)
      → get_drop (string s) d ≡ some e
      → (update (string s) changes temp now d).0 ≢ absent
  unfolding update put
  update-present s changes temp now d e found p = ground arith

  pub update_drop-IsDone :
      (s : Text) (changes : Dict Key Value) (w : World) (e : Entry) (a : Option Entry)
      → get_drop (string s) w.directory ≡ some e
      → (update_drop o (string s) changes w).0 ≡ ok a
      → IsDone o s changes w
  unfolding update_drop ask ◌>>=◌ gets
  update_drop-IsDone s changes w e a found h =
      let temp = o.temp w.questions in
      let now = o.clock (w.questions + 1) in
      let d = w.directory in
      elim (commit-done temp now (update (string s) changes temp now d).0
        (update (string s) changes temp now d).1 (record w { questions = w.questions + 1 + 1 }) a
        h) [
          | inl missing ↦ absurd (update-present s changes temp now d e found missing)
          | inr (f, eq, after) ↦ record {
            temp = temp;
            now = now;
            entry = f;
            is_update = update-IsUpdate s changes temp now d f eq;
            after = after ∙ update-write s changes temp now d f eq;
          }
        ]
