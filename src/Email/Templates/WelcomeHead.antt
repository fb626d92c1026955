-- ===== src/Email/Templates/WelcomeHead.antt =====
-- src/modules/email/templates/welcome.ts, up to the end of its styles.
use vnst_be.Base.{List, [], ◌∷◌}
use vnst_be.Email.Templates.Pieces.{Piece, lit}

abbrev pub welcome_head : List Piece
welcome_head =
    lit "<!doctype html>\n"
    ∷ lit "<html>\n"
    ∷ lit "<head>\n"
    ∷ lit "    <meta name=\"viewport\" content=\"width=device-width\"/>\n"
    ∷ lit "    <meta http-equiv=\"Content-Type\" content=\"text/html; charset=UTF-8\"/>\n"
    ∷ lit "    <title>Nami Corporation</title>\n"
    ∷ lit "    <link rel=\"preconnect\" href=\"https://fonts.googleapis.com\">\n"
    ∷ lit "    <link rel=\"preconnect\" href=\"https://fonts.gstatic.com\" crossorigin>\n"
    ∷ lit
        "    <link href=\"https://fonts.googleapis.com/css2?family=Barlow:wght@400;600&display=swap\" rel=\"stylesheet\">\n"
    ∷ lit "    <style>\n"
    ∷ lit "        * {\n"
    ∷ lit "            margin: 0;\n"
    ∷ lit "            padding: 0;\n"
    ∷ lit "            font-size: 16px;\n"
    ∷ lit "            font-family: \"Barlow\", sans-serif;\n"
    ∷ lit "            line-height: 1.65\n"
    ∷ lit "        }\n"
    ∷ lit "\n"
    ∷ lit "        img {\n"
    ∷ lit "            margin: 0 auto;\n"
    ∷ lit "            display: block\n"
    ∷ lit "        }\n"
    ∷ lit "\n"
    ∷ lit "        .header_img {\n"
    ∷ lit "            max-width: 100%\n"
    ∷ lit "        }\n"
    ∷ lit "\n"
    ∷ lit "        body, .body-wrap {\n"
    ∷ lit "            width: 100% !important;\n"
    ∷ lit "            height: 100%;\n"
    ∷ lit "            background: #f8f8f8;\n"
    ∷ lit "            color: black !important\n"
    ∷ lit "        }\n"
    ∷ lit "\n"
    ∷ lit "        a {\n"
    ∷ lit "            color: #00C8BC\n"
    ∷ lit "        }\n"
    ∷ lit "\n"
    ∷ lit "        .button{\n"
    ∷ lit "            cursor: pointer;\n"
    ∷ lit "            color: #00C8BC;\n"
    ∷ lit "            font-weight: 600;\n"
    ∷ lit "            font-size: 18px;\n"
    ∷ lit "            text-align: center;\n"
    ∷ lit "            margin-top: 0.5rem;\n"
    ∷ lit "            margin-bottom: 0.5rem;\n"
    ∷ lit "        }\n"
    ∷ lit "\n"
    ∷ lit "        p, ul, ol, a {\n"
    ∷ lit "            font-size: 0.875rem;\n"
    ∷ lit "            line-height: 1.5rem;\n"
    ∷ lit "            font-weight: normal;\n"
    ∷ lit "            margin-bottom: 0.5rem;\n"
    ∷ lit "        }\n"
    ∷ lit "\n"
    ∷ lit "        li{\n"
    ∷ lit "            font-size: 0.875rem;\n"
    ∷ lit "            font-weight: normal;\n"
    ∷ lit "            margin-left: 1rem;\n"
    ∷ lit "            margin-bottom: 0.5rem;\n"
    ∷ lit "        }\n"
    ∷ lit "\n"
    ∷ lit "        h1 {\n"
    ∷ lit "            font-size: 20px;\n"
    ∷ lit "            text-align: left;\n"
    ∷ lit "            color: #223050\n"
    ∷ lit "        }\n"
    ∷ lit "\n"
    ∷ lit "        .primarycolor {\n"
    ∷ lit "            color: #00C8BC !important\n"
    ∷ lit "        }\n"
    ∷ lit "\n"
    ∷ lit "        .code {\n"
    ∷ lit "            color: #00C8BC !important;\n"
    ∷ lit "            font-size: 1.5rem;\n"
    ∷ lit "            font-weight: 600;\n"
    ∷ lit "        }\n"
    ∷ lit "\n"
    ∷ lit "        .container {\n"
    ∷ lit "            border: 1px solid #8080801f !important;\n"
    ∷ lit "            border-radius: 8px !important;\n"
    ∷ lit "            display: block !important;\n"
    ∷ lit "            clear: both !important;\n"
    ∷ lit "            margin: 0 auto !important;\n"
    ∷ lit "            max-width: 640px !important\n"
    ∷ lit "        }\n"
    ∷ lit "\n"
    ∷ []

abbrev pub welcome_styles : List Piece
welcome_styles =
    lit "        .container table {\n"
    ∷ lit "            width: 100% !important;\n"
    ∷ lit "            border-collapse: collapse\n"
    ∷ lit "        }\n"
    ∷ lit "\n"
    ∷ lit "        .container .masthead {\n"
    ∷ lit "            background: #71bc37;\n"
    ∷ lit "            color: black;\n"
    ∷ lit "            position: relative\n"
    ∷ lit "        }\n"
    ∷ lit "\n"
    ∷ lit "        .container .footer {\n"
    ∷ lit "            background: #007088\n"
    ∷ lit "        }\n"
    ∷ lit "\n"
    ∷ lit "        .container .content {\n"
    ∷ lit "            padding: 3.125rem 4.125rem;\n"
    ∷ lit "            text-align: center\n"
    ∷ lit "        }\n"
    ∷ lit "\n"
    ∷ lit "        .container .content.footer p {\n"
    ∷ lit "            margin-bottom: 0;\n"
    ∷ lit "            color: #fff;\n"
    ∷ lit "            text-align: center;\n"
    ∷ lit "            font-size: 14px\n"
    ∷ lit "        }\n"
    ∷ lit "\n"
    ∷ lit "        .copyright {\n"
    ∷ lit "            padding: 30px;\n"
    ∷ lit "            color: #fff;\n"
    ∷ lit "            text-align: center\n"
    ∷ lit "        }\n"
    ∷ lit "\n"
    ∷ lit "        .copyright p {\n"
    ∷ lit "            margin: 0\n"
    ∷ lit "        }\n"
    ∷ lit "\n"
    ∷ lit "        footer {\n"
    ∷ lit "            background: black;\n"
    ∷ lit "            padding: 36px\n"
    ∷ lit "        }\n"
    ∷ lit "\n"
    ∷ lit "        .footer-wrapper {\n"
    ∷ lit "            display: flex;\n"
    ∷ lit "            justify-content: space-between\n"
    ∷ lit "        }\n"
    ∷ lit "\n"
    ∷ lit "        .icons {\n"
    ∷ lit "            width: 40%\n"
    ∷ lit "        }\n"
    ∷ lit "\n"
    ∷ lit "        .icon {\n"
    ∷ lit "            width: 100%\n"
    ∷ lit "        }\n"
    ∷ lit "\n"
    ∷ lit "        .flex > div {\n"
    ∷ lit "            float: left\n"
    ∷ lit "        }\n"
    ∷ lit "\n"
    ∷ lit "        .links {\n"
    ∷ lit "            margin-top: 24px;\n"
    ∷ lit "            text-align: center\n"
    ∷ lit "        }\n"
    ∷ lit "\n"
    ∷ lit "        .links > a {\n"
    ∷ lit "            font-size: 14px\n"
    ∷ lit "        }\n"
    ∷ lit "\n"
    ∷ lit "        div.downloads {\n"
    ∷ lit "            display: flex;\n"
    ∷ lit "            justify-content: flex-end;\n"
    ∷ lit "            width: 80&%\n"
    ∷ lit "        }\n"
    ∷ lit "\n"
    ∷ lit "        .downloads > a {\n"
    ∷ lit "            float: left;\n"
    ∷ lit "            margin-left: 15px\n"
    ∷ lit "        }\n"
    ∷ lit "\n"
    ∷ lit "        .icons > a {\n"
    ∷ lit "            float: left;\n"
    ∷ lit "            margin-right: 20px;\n"
    ∷ lit "            width: 15%\n"
    ∷ lit "        }\n"
    ∷ lit "\n"
    ∷ lit "        .links.primarycolor > a {\n"
    ∷ lit "            margin: 0 11px\n"
    ∷ lit "        }\n"
    ∷ lit "\n"
    ∷ lit "    </style>\n"
    ∷ []
