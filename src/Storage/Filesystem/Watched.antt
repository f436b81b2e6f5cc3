-- ===== src/Storage/Filesystem/Watched.antt =====
-- The watcher of the file `head` (storage_backends/filesystem/mod.rs), and the center behind it.
use eafcc_core.Prelude.{
  ℕ, ◌≡◌, ◌≢◌, refl, ap, ◌∙◌, Bool, true, false, Option, none, some, List, [], ◌∷◌, ◌++◌, All,
  if◌then◌else◌,
}
use eafcc_core.Text.{Text}
use eafcc_core.Text.Utf8.{Utf8}
use eafcc_core.Error.{StorageBackendError}
use eafcc_core.Run.{Run, ok, err}
use eafcc_core.Parser.Nom.{Nom}
use eafcc_core.Model.Loader.{SerdeJson}
use eafcc_core.Storage.{VersionItem, StorageChangeEvent, StorageBackend}
use eafcc_core.Storage.Filesystem.{
  DebouncedEvent, is_handled, Tick, read_version_from_fs, called_with, eafcc_watcher,
}
use eafcc_core.Center.{CfgCenter}
use eafcc_core.Center.Events.{
  NeverPanics, IsUnpoisoned, updates, last_version, updates-last_version,
}

module _ (utf8 : Utf8) (path : Text) where
  -- A read of the version that does not panic.
  abbrev pub IsCalm : Tick → Type 0
  IsCalm tick = read_version_from_fs utf8 tick.fs path ≢ Run.panicked

  called_with-append :
      (r : Run StorageBackendError VersionItem) (rest more : List StorageChangeEvent)
      → r ≢ Run.panicked
      → called_with utf8 path r (rest ++ more) ≡ called_with utf8 path r rest ++ more
  unfolding called_with
  called_with-append Run.panicked rest more h = absurd (h refl)
  called_with-append (err e) rest more h = refl
  called_with-append (ok v) rest more h = refl

  eafcc_watcher-append :
      (ticks more : List Tick)
      → All IsCalm ticks
      → eafcc_watcher utf8 path (ticks ++ more)
        ≡ eafcc_watcher utf8 path ticks ++ eafcc_watcher utf8 path more
  unfolding eafcc_watcher
  eafcc_watcher-append [] more h = refl
  eafcc_watcher-append (tick ∷ ticks) more h =
      at tick.received (eafcc_watcher-append ticks more h.1)
    where
      handled :
          (b : Bool)
          → eafcc_watcher utf8 path (ticks ++ more)
            ≡ eafcc_watcher utf8 path ticks ++ eafcc_watcher utf8 path more
          → (if b
              then called_with utf8 path
                  (read_version_from_fs utf8 tick.fs path)
                  (eafcc_watcher utf8 path (ticks ++ more))
              else eafcc_watcher utf8 path (ticks ++ more))
            ≡ (if b
                then called_with utf8 path
                    (read_version_from_fs utf8 tick.fs path)
                    (eafcc_watcher utf8 path ticks)
                else eafcc_watcher utf8 path ticks)
              ++ eafcc_watcher utf8 path more
      handled true ih =
          ap (called_with utf8 path (read_version_from_fs utf8 tick.fs path)) ih
          ∙ called_with-append (read_version_from_fs utf8 tick.fs path) _ _ h.0
      handled false ih = ih

      at :
          (o : Option DebouncedEvent)
          → eafcc_watcher utf8 path (ticks ++ more)
            ≡ eafcc_watcher utf8 path ticks ++ eafcc_watcher utf8 path more
          → eafcc_watcher utf8 path (record tick { received = o } ∷ (ticks ++ more))
            ≡ eafcc_watcher utf8 path (record tick { received = o } ∷ ticks)
              ++ eafcc_watcher utf8 path more
      at none ih = ih
      at (some event) ih = handled (is_handled event) ih

  last_version-append :
      (version : VersionItem) (events : List StorageChangeEvent) (e : StorageChangeEvent)
      → last_version version (events ++ e ∷ []) ≡ e.new_version
  last_version-append version [] e = refl
  last_version-append version (d ∷ events) e = last_version-append d.new_version events e

  watched_last :
      (tick : Tick) (event : DebouncedEvent) (v : VersionItem)
      → tick.received ≡ some event
      → is_handled event ≡ true
      → read_version_from_fs utf8 tick.fs path ≡ ok v
      → eafcc_watcher utf8 path (tick ∷ []) ≡ record { new_version = v } ∷ []
  unfolding eafcc_watcher
  watched_last tick event v r h e = rw (r, h, e)

  -- If the storage and the reads of `head` never panic and the locks of the center are not poisoned,
  -- then after any rounds of the watcher of which the last receives an event that it handles and
  -- reads a version, the center is at that version, whatever went wrong in the rounds before.
  pub eafcc_watcher-current_version :
      (nom : Nom) (serde : SerdeJson) (storage : ℕ → StorageBackend) (center : CfgCenter)
      (ticks : List Tick) (tick : Tick) (event : DebouncedEvent) (v : VersionItem)
      → ((k : ℕ) → NeverPanics nom serde (storage k))
      → IsUnpoisoned center
      → All IsCalm ticks
      → tick.received ≡ some event
      → is_handled event ≡ true
      → read_version_from_fs utf8 tick.fs path ≡ ok v
      → (updates nom serde storage 0 center
          (eafcc_watcher utf8 path (ticks ++ tick ∷ []))).current_version
        ≡ v
  eafcc_watcher-current_version nom serde storage center ticks tick event v calm fresh reads r h e =
      let events = eafcc_watcher utf8 path (ticks ++ tick ∷ []) in
      let (ends, last) = updates-last_version nom serde storage 0 center events calm fresh in
      last
      ∙ ap (last_version center.current_version) (
          eafcc_watcher-append ticks (tick ∷ []) reads
          ∙ ap (λ m. eafcc_watcher utf8 path ticks ++ m) (watched_last tick event v r h e))
      ∙ last_version-append center.current_version (eafcc_watcher utf8 path ticks)
          (record { new_version = v })
