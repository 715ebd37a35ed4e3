-- ===== src/ReturnValue.antt =====
-- `ReturnValue` of engine/src/enums.h: what an operation answers, each value by the source's word.
use otx_teste.Common.{◌≡◌, refl}

pub data ReturnValue : Type 0 where
  noerror notpossible notenoughroom playerispzlocked playerisnotinvited cannotthrow thereisnoway
        destinationoutofreach creatureblock notmoveable droptwohandeditem bothhandsneedtobefree
        canonlyuseoneweapon needexchange cannotbedressed putthisobjectinyourhand
        putthisobjectinbothhands toofaraway firstgodownstairs firstgoupstairs containernotenoughroom
        onlyammoinquiver notenoughcapacity cannotpickup thisisimpossible depotisfull
        creaturedoesnotexist cannotusethisobject playerwiththisnameisnotonline
        notrequiredleveltouserune youarealreadytrading thisplayerisalreadytrading
        youmaynotlogoutduringafight directplayershoot notenoughlevel notenoughmagiclevel
        notenoughmana notenoughsoul youareexhausted playerisnotreachable
        canonlyusethisruneoncreatures actionnotpermittedinprotectionzone youmaynotattackthisplayer
        youmaynotattackapersoninprotectionzone youmaynotattackapersonwhileinprotectionzone
        youmaynotattackthiscreature youcanonlyuseitoncreatures creatureisnotreachable
        turnsecuremodetoattackunmarkedplayers youneedpremiumaccount youneedvipaccount
        youneedtolearnthisspell yourvocationcannotusethisspell youneedaweapontousethisspell
        playerispzlockedleavepvpzone playerispzlockedenterpvpzone actionnotpermittedinanopvpzone
        youcannotlogouthere youneedamagicitemtocastspell cannotconjureitemhere
        youneedtosplityourspears nameistooambiguous canonlyuseoneshield nopartymembersinrange
        youarenottheowner youcantopencorpseadm nosuchraidexists anotherraidisalreadyexecuting
        tradeplayerfaraway youdontownthishouse tradeplayeralreadyownsahouse tradeplayerhighestbidder
        youcannottradethishouse notenoughfistlevel notenoughclublevel notenoughswordlevel
        notenoughaxelevel notenoughdistancelevel notenoughshieldlevel notenoughfishlevel
        rewardchestisempty preyinternalerror notenoughmoneyforreroll noavailablebonusreroll
        youdonthaverequiredprofession chosenmonsterisalreadyinuse :
      ReturnValue

-- An early return, else the rest.
abbrev pub or_else : ReturnValue → ReturnValue → ReturnValue
or_else noerror rest = rest
or_else r rest = r

pub or_else-noerror :
    (r rest : ReturnValue) → or_else r rest ≡ noerror → (r ≡ noerror) × (rest ≡ noerror)
or_else-noerror noerror rest h = (refl, h)
or_else-noerror r rest h = absurd (cc)
