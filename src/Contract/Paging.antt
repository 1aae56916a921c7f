-- ===== src/Contract/Paging.antt =====
-- What a page of `query_list_subscriptions` shows.
use interchain_event.Common.{
  length, length-take, leb, Bool, not, ℕ, zero, suc, ◌+◌, ◌≤◌, ◌≡◌, refl, true, ◌&&◌, Option, none,
  some, Bool-cases, inl, inr, List, [], ◌∷◌, ◌==◌, ltb, take, arith, if◌then◌else◌,
}
use interchain_event.Js.Text.{Text}
use interchain_event.Contract.Types.{StoredSubscription, Callback}
use interchain_event.Contract.Store.{Store, Entries, may_load}
use interchain_event.Contract.Verify.{Ics23}
use interchain_event.Contract.Condition.{Serde}
use interchain_event.Contract.Query.{
  is_behind, subscriptions_behind, page_limit, query_list_subscriptions,
}
use interchain_event.Contract.Chain.{Runs}
use interchain_event.Contract.Invariant.{
  IsKeyed, IsAbove, IsAscending, IsAbove-raise, Runs-IsTidy, instantiated, instantiated-IsTidy,
}

-- The subscription of an id on a page.
unfoldable pub find_id : ℕ → List StoredSubscription → Option StoredSubscription
find_id id [] = none
find_id id (sub ∷ subs) = let rest = find_id id subs in if sub.id == id then some sub else rest

-- What a page is to be: the ids behind its start, and how many of them at most.
unfoldable pub comes_after : Option ℕ → ℕ → Bool
comes_after none id = true
comes_after (some start) id = not (leb id start)

unfoldable pub size_of_page : Option ℕ → ℕ
size_of_page none = 30
size_of_page (some n) = if ltb 100 n then 100 else n

is_behind-eq : (start : Option ℕ) (id : ℕ) → is_behind start id ≡ comes_after start id
unfolding is_behind comes_after
is_behind-eq none id = refl
is_behind-eq (some start) id = ground arith

page_limit-eq : (limit : Option ℕ) → page_limit limit ≡ size_of_page limit
unfolding page_limit size_of_page
page_limit-eq none = refl
page_limit-eq (some n) = ground arith

-- How many stored ids stand behind the start and before an id.
unfoldable pub count_before : Option ℕ → ℕ → Entries → ℕ
unfolding comes_after
count_before start id [] = 0
count_before start id ((k, sub) ∷ rest) =
    let later = count_before start id rest in
    if comes_after start k && ltb k id then 1 + later else later

count_before_above :
    (start : Option ℕ) (id : ℕ) (entries : Entries)
    → IsAbove id entries
    → count_before start id entries ≡ 0
unfolding count_before
count_before_above start id [] above = refl
count_before_above start id ((k, sub) ∷ rest) (h, above) =
    ground (arith, count_before_above start id rest above)

may_load_above : (id : ℕ) (entries : Entries) → IsAbove id entries → may_load id entries ≡ none
unfolding may_load
may_load_above id [] above = refl
may_load_above id ((k, sub) ∷ rest) (h, above) = ground (arith, may_load_above id rest above)

comes_after_mono :
    (start : Option ℕ) (j k : ℕ) → j ≤ k → comes_after start j ≡ true → comes_after start k ≡ true
unfolding comes_after
comes_after_mono none j k le h = refl
comes_after_mono (some start) j k le h = ground arith

find_id_page :
    (start : Option ℕ) (id n : ℕ) (entries : Entries)
    → IsKeyed entries
    → IsAscending entries
    → find_id id (take n (subscriptions_behind start entries)) ≡ (
        if comes_after start id && ltb (count_before start id entries) n
        then may_load id entries
        else none)
unfolding find_id subscriptions_behind count_before may_load
find_id_page start id zero [] keyed asc = ground arith
find_id_page start id (suc n) [] keyed asc = ground arith
find_id_page start id zero ((k, sub) ∷ rest) (named, keyed) (above, asc) = ground arith
find_id_page start id (suc n) ((k, sub) ∷ rest) (named, keyed) (above, asc) =
    elim (Bool-cases (comes_after start k)) [
      | inl behind ↦ ground (
        arith,
        is_behind-eq start k,
        find_id_page start id n rest keyed asc,
        count_before_above start id rest,
        may_load_above id rest,
        comes_after_mono start k id,
        IsAbove-raise id k rest,
      )
      | inr before ↦ ground (
        arith,
        is_behind-eq start k,
        find_id_page start id (suc n) rest keyed asc,
        comes_after_mono start id k,
        may_load_above id rest,
        IsAbove-raise id k rest,
      )
    ]

-- After any run of the contract since `instantiate`, a page of `query_list_subscriptions` holds
-- under an id the subscription that is stored under it, if the id stands behind the start and
-- fewer ids than the page's limit (30, or what is asked for, up to 100) stand between them, and
-- nothing under it otherwise.
pub query_list_subscriptions-may_load :
    (ics23 : Ics23) (serde : Serde) (admin : Text) (sent : List Callback) (s : Store)
    → Runs ics23 serde (instantiated admin) sent s
    → (start_after limit : Option ℕ) (id : ℕ)
    → find_id id (query_list_subscriptions start_after limit s) ≡ (
        if comes_after start_after id
          && ltb (count_before start_after id s.subscriptions) (size_of_page limit)
        then may_load id s.subscriptions
        else none)
unfolding query_list_subscriptions
query_list_subscriptions-may_load ics23 serde admin sent s run start_after limit id =
    let tidy =
      Runs-IsTidy ics23 serde (instantiated admin) s sent run (instantiated-IsTidy admin) in
    rw (page_limit-eq limit)
      (find_id_page start_after id (size_of_page limit) s.subscriptions tidy.keyed tidy.ascending)

size_of_page-le : (limit : Option ℕ) → size_of_page limit ≤ 100
unfolding size_of_page
size_of_page-le none = omega arith
size_of_page-le (some n) = ground arith

-- No page has more than a hundred subscriptions.
pub length-query_list_subscriptions :
    (start_after limit : Option ℕ) (s : Store)
    → length (query_list_subscriptions start_after limit s) ≤ 100
unfolding query_list_subscriptions
length-query_list_subscriptions start_after limit s = rw (page_limit-eq limit) (
    omega (
      arith,
      length-take (size_of_page limit) (subscriptions_behind start_after s.subscriptions),
      size_of_page-le limit,
    ))
