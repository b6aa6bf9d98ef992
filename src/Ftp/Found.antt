-- ===== src/Ftp/Found.antt =====
-- What `wait_for_new_photo` of src/dwarf_alpaca/dwarf/ftp_client.py finds.
use dwarf_alp.Prelude.{
  ◌≡◌, refl, Option, none, some, List, [], ◌∷◌, inl, inr, Bool-cases, Option-cases, if◌then◌else◌,
  subst, sym,
}
use dwarf_alp.Camera.Capture.{astro}
use dwarf_alp.Ftp.Listing.{FtpPhotoEntry, Server}
use dwarf_alp.Ftp.Wait.{
  latest, Poll, Wanted, entries_of, latest_entry, is_wanted, poll_photo, wait_for_new_photo,
}
use dwarf_alp.Ftp.Fresh.{
  IsRawName, is_raw_frame-IsRawName, IsFresh, is_wanted-IsFresh, unwanted-IsFresh,
}
use dwarf_alp.Ftp.Raw.{found-IsRaw}
use dwarf_alp.Ftp.Order.{IsLatest, IsLatestOf, latest-IsLatestOf}

module _ {C : Type 0} (wanted : Wanted) where
  -- The entry is the latest one that the listing of the poll's server collects, it is new and current,
  -- in the astro workflow it is a raw frame and no stack, and its download gave the content.
  pub record IsFoundBy (poll : Poll C) (entry : FtpPhotoEntry) (content : C) : Type 0 where
    pub server : Server
    pub shown : poll.server ≡ some server
    pub last : IsLatest entry (entries_of wanted server)
    pub fresh : IsFresh wanted entry
    pub raw : wanted.kind ≡ astro → IsRawName wanted.parser.lower entry.name
    pub downloaded : poll.download entry.path ≡ some content

  -- The poll found nothing: its search failed, there was no entry, or the latest one was not new and
  -- current, or its download failed.
  pub data Misses (poll : Poll C) : Type 0 where
    unsearched : poll.server ≡ none → Misses poll
    empty :
        (server : Server) → poll.server ≡ some server → entries_of wanted server ≡ [] → Misses poll
    passed_over :
        (server : Server) (entry : FtpPhotoEntry)
        → poll.server ≡ some server
        → IsLatest entry (entries_of wanted server)
        → ¬ IsFresh wanted entry
        → Misses poll
    not_downloaded :
        (server : Server) (entry : FtpPhotoEntry)
        → poll.server ≡ some server
        → IsLatest entry (entries_of wanted server)
        → IsFresh wanted entry
        → poll.download entry.path ≡ none
        → Misses poll

  -- What a call returns for its polls: nothing where all of them missed, and otherwise what the first
  -- poll that did not miss found.
  pub data Finds : List (Poll C) → Option (FtpPhotoEntry × C) → Type 0 where
    at_deadline : Finds [] none
    at_poll :
        {poll : Poll C} {polls : List (Poll C)} {entry : FtpPhotoEntry} {content : C}
        → IsFoundBy poll entry content
        → Finds (poll ∷ polls) (some (entry, content))
    later :
        {poll : Poll C} {polls : List (Poll C)} {found : Option (FtpPhotoEntry × C)}
        → Misses poll
        → Finds polls found
        → Finds (poll ∷ polls) found

  abbrev PollFinds : Poll C → Option (FtpPhotoEntry × C) → Type 0
  PollFinds poll none = Misses poll
  PollFinds poll (some (entry, content)) = IsFoundBy poll entry content

  entry_finds :
      (poll : Poll C) (server : Server) (entry : FtpPhotoEntry)
      → poll.server ≡ some server
      → IsLatest entry (entries_of wanted server)
      → PollFinds poll (
          if is_wanted wanted entry
          then elim (poll.download entry.path) [
            | none ↦ none
            | some content ↦ some (entry, content)
          ]
          else none)
  entry_finds poll server entry shown last = elim (Bool-cases (is_wanted wanted entry)) [
    | inr q ↦ rw q (passed_over server entry shown last (unwanted-IsFresh wanted entry q))
    | inl q ↦ elim (Option-cases (poll.download entry.path)) [
      | inl d ↦
          rw (q, d) (not_downloaded server entry shown last (is_wanted-IsFresh wanted entry q) d)
      | inr (content, d) ↦
          rw (q, d)
            (record {
              server = server;
              shown = shown;
              last = last;
              fresh = is_wanted-IsFresh wanted entry q;
              raw = λ k. is_raw_frame-IsRawName wanted.parser entry.name (
                  found-IsRaw wanted.parser server wanted.kind wanted.limit wanted.camera entry k
                    last.0);
              downloaded = d;
            })
    ]
  ]

  -- What a poll finds behind its latest entry.
  abbrev found_at : Poll C → Option FtpPhotoEntry → Option (FtpPhotoEntry × C)
  found_at poll none = none
  found_at poll (some entry) =
      if is_wanted wanted entry
      then elim (poll.download entry.path) [ none ↦ none | some content ↦ some (entry, content) ]
      else none

  latest_finds :
      (poll : Poll C) (server : Server) (o : Option FtpPhotoEntry)
      → poll.server ≡ some server
      → IsLatestOf (entries_of wanted server) o
      → PollFinds poll (found_at poll o)
  latest_finds poll server none shown h = empty server shown h
  latest_finds poll server (some entry) shown h = entry_finds poll server entry shown h

  shown_finds :
      (poll : Poll C) (o : Option Server)
      → poll.server ≡ o
      → PollFinds poll (found_at poll (latest_entry wanted o))
  unfolding latest_entry
  shown_finds poll none shown = unsearched shown
  shown_finds poll (some server) shown =
      latest_finds poll server (latest (entries_of wanted server)) shown
        (latest-IsLatestOf (entries_of wanted server))

  poll_photo-found :
      (poll : Poll C) → poll_photo wanted poll ≡ found_at poll (latest_entry wanted poll.server)
  unfolding poll_photo
  poll_photo-found poll = go (latest_entry wanted poll.server)
    where
      go :
          (o : Option FtpPhotoEntry)
          → (elim o [
            | none ↦ none
            | some entry ↦
                if is_wanted wanted entry
                then elim (poll.download entry.path) [
                  | none ↦ none
                  | some content ↦ some (entry, content)
                ]
                else none
          ])
            ≡ found_at poll o
      go none = refl
      go (some entry) = refl

  poll-PollFinds : (poll : Poll C) → PollFinds poll (poll_photo wanted poll)
  poll-PollFinds poll =
      subst (PollFinds poll) (sym (poll_photo-found poll)) (shown_finds poll poll.server refl)

  -- The search for a new photo returns what the first poll finds that does not miss: the latest of the
  -- entries that the listing of its server collects, where it is later than the baseline by more than a
  -- microsecond or another file, at most ten seconds before the time that the exposure allows (by the
  -- time in its path, and otherwise its timestamp), in the astro workflow with a name that ends with
  -- ".fits" or ".fit" and does not begin with "stacked" in lower case, and its download succeeds. It
  -- returns nothing only where every poll until the deadline misses: its search fails, no entry is
  -- collected, or the latest one fails one of the two tests of time and path or cannot be downloaded.
  pub wait_for_new_photo-Finds :
      (polls : List (Poll C)) → Finds polls (wait_for_new_photo wanted polls)
  unfolding wait_for_new_photo
  wait_for_new_photo-Finds [] = at_deadline
  wait_for_new_photo-Finds (poll ∷ polls) =
      go (poll_photo wanted poll) (poll-PollFinds poll) (wait_for_new_photo-Finds polls)
    where
      go :
          (o : Option (FtpPhotoEntry × C))
          → PollFinds poll o
          → Finds polls (wait_for_new_photo wanted polls)
          → Finds
              (poll ∷ polls)
              (elim o [ none ↦ wait_for_new_photo wanted polls | some found ↦ some found ])
      go none h rest = later h rest
      go (some (entry, content)) h rest = at_poll h
